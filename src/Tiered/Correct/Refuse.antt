-- ===== src/Tiered/Correct/Refuse.antt =====
-- A degraded `TieredCache` refuses (internal/cache/tiered/mutations.go and read.go), also between the
-- parts of a recovery (recovery.go).
use frankenphp_tiered_cache.Base.{
  ◌≡◌, refl, sym, ap, ◌∙◌, ◌⊎◌, inl, inr, ◌==◌, Bool, true, false, Option, none, some, List, [],
  ◌∷◌, if◌then◌else◌,
}
use frankenphp_tiered_cache.Base.Int.{ℤ, pos_part}
use frankenphp_tiered_cache.Base.Dict.{Key}
use frankenphp_tiered_cache.Contract.{Bytes, Error, sentinel, closed, not_positive}
use frankenphp_tiered_cache.Tiered.State.{
  System, TieredCache, unavailable, refusal, unavailable_error,
}
use frankenphp_tiered_cache.Tiered.Set.{set, forever, add, set_locked, add_locked}
use frankenphp_tiered_cache.Tiered.SetMany.{set_many, non_nil, set_many_values, set_many_locked}
use frankenphp_tiered_cache.Tiered.Remove.{forget, touch, touch_locked, flush}
use frankenphp_tiered_cache.Tiered.Count.{change_counter}
use frankenphp_tiered_cache.Tiered.Read.{get_begin, get_finish}
use frankenphp_tiered_cache.Tiered.ReadMany.{get_many_finish}
use frankenphp_tiered_cache.Tiered.Recovery.{Others, recovery_probe, recovery_flush, try_recovery}
use frankenphp_tiered_cache.Tiered.Correct.Keeps.{IsQueue}
use frankenphp_tiered_cache.Tiered.Correct.Retry.{IsIdle}
use frankenphp_tiered_cache.Tiered.Correct.Recover.{
  retried, checked, awaited, recovery_probe-Part, recovery_retry-Part, recovery_flush-Part,
  try_recovery-Recovers,
}
use frankenphp_tiered_cache.Tiered.History.{
  Call, calls_set, calls_forever, calls_add, calls_set_many, calls_forget, calls_touch, calls_flush,
  calls_change_counter, calls_get_begin, calls_get_finish, calls_get_many_read,
  calls_get_many_finish, calls_recovery_probe, calls_recovery_retry, calls_recovery_flush,
  calls_recovery_enter, meets, calls_close, run, run_all,
}

-- The mutations, and the parts of the reads that look at the health of the cache.
abbrev pub IsGuarded : Call → Type 0
IsGuarded (calls_set key value ttl) = Unit {0}
IsGuarded (calls_forever key value) = Unit {0}
IsGuarded (calls_add key value ttl) = Unit {0}
IsGuarded (calls_set_many values ttl) = Unit {0}
IsGuarded (calls_forget key) = Unit {0}
IsGuarded (calls_touch key ttl) = Unit {0}
IsGuarded calls_flush = Unit {0}
IsGuarded (calls_change_counter key value decrement) = Unit {0}
IsGuarded (calls_get_begin key) = Unit {0}
IsGuarded (calls_get_finish key fetched) = Unit {0}
IsGuarded (calls_get_many_finish fetched) = Unit {0}
IsGuarded c = ⊥

abbrev pub AllGuarded : List Call → Type 0
AllGuarded [] = Unit {0}
AllGuarded (c ∷ calls) = IsGuarded c × AllGuarded calls

module _ {S1 S2 B : Type 0} (sys : System S1 S2 B) where
  module _ (t : TieredCache S1 S2 B) (down : t.degraded ≡ true) where
    unavailable_again : (e : Error) × (unavailable_error sys t ≡ some e)
    unfolding unavailable_error
    unavailable_again = (unavailable t.state_err, rw down refl)

    refused : (e : Error) × (refusal sys t ≡ some e)
    unfolding refusal
    refused = go t.is_closed unavailable_again
      where
        go :
            (shut : Bool)
            → ((e : Error) × (unavailable_error sys t ≡ some e))
            → (e : Error) × ((if shut then some (sentinel closed) else unavailable_error sys t)
                ≡ some e)
        go true later = (sentinel closed, refl)
        go false later = later

    same_if :
        {A : Type 0} (b : Bool) (p q : TieredCache S1 S2 B × A)
        → p.0 ≡ t
        → q.0 ≡ t
        → (if b then p else q).0 ≡ t
    same_if true p q left right = left
    same_if false p q left right = right

    set_same : (key : Key) (value : Option Bytes) (ttl : ℤ) → (set sys key value ttl t).0 ≡ t
    unfolding set set_locked
    set_same key none ttl = refl
    set_same key (some value) ttl = same_if (not_positive ttl) _ _ refl (rw refused.1 refl)

    forever_same : (key : Key) (value : Option Bytes) → (forever sys key value t).0 ≡ t
    unfolding forever set_locked
    forever_same key none = refl
    forever_same key (some value) = rw refused.1 refl

    add_same : (key : Key) (value : Option Bytes) (ttl : ℤ) → (add sys key value ttl t).0 ≡ t
    unfolding add add_locked
    add_same key none ttl = refl
    add_same key (some value) ttl = same_if (not_positive ttl) _ _ refl (rw refused.1 refl)

    set_many_same :
        (values : List (Key × Option Bytes)) (ttl : ℤ) → (set_many sys values ttl t).0 ≡ t
    unfolding set_many set_many_locked
    set_many_same [] ttl = refl
    set_many_same (v ∷ values) ttl = same_if (not_positive ttl) _ _ refl (go (non_nil (v ∷ values)))
      where
        go :
            (known : Option (List (Key × Bytes)))
            → (set_many_values sys known (pos_part ttl) t).0 ≡ t
        go none = refl
        go (some known) = rw refused.1 refl

    touch_same : (key : Key) (ttl : ℤ) → (touch sys key ttl t).0 ≡ t
    unfolding touch touch_locked
    touch_same key ttl = same_if (not_positive ttl) _ _ refl (rw refused.1 refl)

    run_same : (c : Call) → IsGuarded c → run sys c t ≡ t
    unfolding forget flush change_counter get_begin get_finish get_many_finish
    run_same (calls_set key value ttl) g = set_same key value ttl
    run_same (calls_forever key value) g = forever_same key value
    run_same (calls_add key value ttl) g = add_same key value ttl
    run_same (calls_set_many values ttl) g = set_many_same values ttl
    run_same (calls_forget key) g = rw (refused.1, run) refl
    run_same (calls_touch key ttl) g = touch_same key ttl
    run_same calls_flush g = rw (refused.1, run) refl
    run_same (calls_change_counter key value decrement) g = rw (refused.1, run) refl
    run_same (calls_get_begin key) g = rw (refused.1, run) refl
    run_same (calls_get_finish key f) g =
        same_if t.is_closed _ _ refl
          (same_if (f.version == t.mutation_version) _ _ (rw unavailable_again.1 refl) refl)
    run_same (calls_get_many_finish f) g =
        same_if t.is_closed _ _ refl
          (same_if (f.version == t.mutation_version) _ _ (rw unavailable_again.1 refl) refl)
    run_same (calls_get_many_read keys version) g = elim g [ ]
    run_same calls_recovery_probe g = elim g [ ]
    run_same calls_recovery_retry g = elim g [ ]
    run_same calls_recovery_flush g = elim g [ ]
    run_same (calls_recovery_enter epoch) g = elim g [ ]
    run_same (meets event) g = elim g [ ]
    run_same calls_close g = elim g [ ]

  run_all_same :
      (calls : List Call) (t : TieredCache S1 S2 B)
      → AllGuarded calls
      → t.degraded ≡ true
      → run_all sys calls t ≡ t
  run_all_same [] t guarded down = refl
  run_all_same (c ∷ calls) t (g, guarded) down =
      ap (run_all sys calls) (run_same t down c g) ∙ run_all_same calls t guarded down

  -- Whole operations between the parts of a recovery.
  abbrev pub between : List Call → List Call → List Call → List Call → Others S1 S2 B
  between before_retry before_checks before_flush before_end = record {
    before_retry = run_all sys before_retry;
    before_checks = run_all sys before_checks;
    before_flush = run_all sys before_flush;
    before_end = run_all sys before_end;
  }

  kept_down :
      (calls : List Call)
      → AllGuarded calls
      → (t : TieredCache S1 S2 B) → t.degraded ≡ true
      → (run_all sys calls t).degraded ≡ true
  kept_down calls guarded t down = ap (λ u. u.degraded) (run_all_same calls t guarded down) ∙ down

  -- If a recovery makes a degraded cache healthy in which no key waits twice or beside a pending
  -- flush, and nothing waits if there is no bus, while whole mutations and whole parts of reads
  -- under the lock come between its parts, then nothing waits and there is no cause of an outage.
  pub try_recovery-heals :
      (a b c d : List Call) (t : TieredCache S1 S2 B)
      → AllGuarded a
      → AllGuarded b
      → AllGuarded c
      → AllGuarded d
      → t.degraded ≡ true
      → IsQueue t
      → (sys.has_bus ≡ false → IsIdle sys t)
      → let u = try_recovery sys (between a b c d) t in
        (u.degraded ≡ true) ⊎ (IsIdle sys u × (u.state_err ≡ none))
  try_recovery-heals a b c d t ga gb gc gd down queue idle =
      let o = between a b c d in
      let probed = (recovery_probe sys t).0 in
      let (probe_down, keys, flushes, _) = recovery_probe-Part sys t in
      let same_a = run_all_same a probed ga (probe_down ∙ down) in
      let keys_a = ap (λ u. u.pending_invalidations) same_a ∙ keys in
      let flushes_a = ap (λ u. u.pending_flush) same_a ∙ flushes in
      let queue_a : IsQueue (run_all sys a probed) =
        (rw keys_a queue.0, λ f. keys_a ∙ queue.1 (sym flushes_a ∙ f)) in
      let idle_a : sys.has_bus ≡ false → IsIdle sys (run_all sys a probed) =
        λ off. (keys_a ∙ (idle off).0, flushes_a ∙ (idle off).1) in
      let (retry_down, _, _) = recovery_retry-Part sys (run_all sys a probed) queue_a idle_a in
      let down_1 = retry_down ∙ kept_down a ga probed (probe_down ∙ down) in
      let down_2 = kept_down b gb (retried sys o t) down_1 in
      let down_3 = kept_down c gc (checked sys o t) down_2 in
      let (flush_down, keys_c, flushes_c, _) = recovery_flush-Part sys (awaited sys o t) in
      let flushed = (recovery_flush sys (awaited sys o t)).0 in
      let same_b = run_all_same b (retried sys o t) gb down_1 in
      let same_c = run_all_same c (checked sys o t) gc down_2 in
      let same_d = run_all_same d flushed gd (flush_down ∙ down_3) in
      elim (try_recovery-Recovers sys o t
        (record {
          retry_down = kept_down a ga;
          checks_down = kept_down b gb;
          flush_down = kept_down c gc;
          end_down = kept_down d gd;
        })
        down queue_a idle_a) [
          | inl still ↦ inl still
          | inr (_, empty, _, _, _, (_, _, cause, _, keys_u, flushes_u)) ↦
              let same = same_c ∙ same_b in
              inr (
                (
                  keys_u
                      ∙ ap (λ u. u.pending_invalidations) same_d
                      ∙ keys_c
                      ∙ ap (λ u. u.pending_invalidations) same
                      ∙ empty.0,
                  flushes_u
                      ∙ ap (λ u. u.pending_flush) same_d
                      ∙ flushes_c
                      ∙ ap (λ u. u.pending_flush) same
                      ∙ empty.1,
                ),
                cause,
              )
        ]
