-- ===== src/Memory/Correct/Add.antt =====
-- `Add` of `MemoryCache` (internal/cache/memory/cache.go).
use frankenphp_tiered_cache.Base.{
  ℕ, suc, ◌+◌, ◌≤◌, ◌≡◌, ◌∙◌, true, false, Option, none, some, arith, leb, leb→le, leb_false→lt,
  le→ltb_false, Bool-cases, inl, inr,
}
use frankenphp_tiered_cache.Base.Int.{pos_part}
use frankenphp_tiered_cache.Base.Dict.{Key}
use frankenphp_tiered_cache.Contract.{Bytes, Duration, success, not_positive}
use frankenphp_tiered_cache.Memory.State.{Env, MemoryCache, item_cost, entry_at, called, now}
use frankenphp_tiered_cache.Memory.Ops.{add_attempt, add, evicting_loop}
use frankenphp_tiered_cache.Memory.Account.Invariant.{IsValid, SameLimits-trans}
use frankenphp_tiered_cache.Memory.Lookup.{Shrinks-entry_at}
use frankenphp_tiered_cache.Memory.Correct.Retry.{evicting_loop_retries, evicting_loop_done}
use frankenphp_tiered_cache.Memory.Correct.Stored.{expires, Stored, Written, Written-after}
use frankenphp_tiered_cache.Memory.Correct.Single.{is_live}
use frankenphp_tiered_cache.Memory.Correct.Absent.{
  add_absent_fits, add_absent_full, Absent, absent_lem, none-Absent,
}

module _ (env : Env) (k : Key) (value : Bytes) (ttl : ℕ) where
  -- The loop of `Add` ends with the value stored.
  AddWritten : ℕ → MemoryCache → Type 0
  AddWritten fuel c =
      (n : ℕ) × (d : MemoryCache) × (evicting_loop env (add_attempt env k value ttl) false fuel c
        ≡ some (true, d))
      × Written env k value (expires env n (some ttl)) c d

  Absent-Stored-Written :
      (c d e : MemoryCache) (x : Option ℕ)
      → Absent env k value ttl c d
      → Stored env k value x d e
      → Written env k value x c e
  Absent-Stored-Written c d e x a s = record {
    valid = s.valid;
    stored = s.stored;
    others = λ j other. inr (s.others j other ∙ a.others j other);
    limits = SameLimits-trans a.limits s.limits;
  }

  Absent-Written :
      (c d e : MemoryCache) (x : Option ℕ)
      → Absent env k value ttl c d
      → Written env k value x d e
      → Written env k value x c e
  Absent-Written c d e x a w = record {
    valid = w.valid;
    stored = w.stored;
    others = λ j other. elim (w.others j other) [
      | inl gone ↦ inl gone
      | inr same ↦ inr (same ∙ a.others j other)
    ];
    limits = SameLimits-trans a.limits w.limits;
  }

  add_loop_fits :
      (fuel : ℕ) (c d : MemoryCache)
      → Absent env k value ttl c d
      → d.current + item_cost k value ≤ d.max_memory
      → AddWritten (suc fuel) c
  unfolding AddWritten
  add_loop_fits fuel c d a h =
      let (e, attempted, s) = add_absent_fits env k value (now env c + ttl) d a.valid a.absent h in
      let p = a.attempts ∙ attempted in
      let ends =
        evicting_loop_done env (add_attempt env k value ttl) false true fuel c (λ i. (p i).0) in
      (
        c.calls,
        e,
        ends ∙ (λ i. some (true, (p i).1)),
        Absent-Stored-Written c d e (expires env c.calls (some ttl)) a s,
      )

  add_loop_written :
      (fuel : ℕ) (c : MemoryCache)
      → IsValid c
      → item_cost k value ≤ c.max_memory
      → is_live (now env c) (entry_at env c k) ≡ false
      → AddWritten (suc (suc fuel)) c
  unfolding AddWritten
  add_loop_written fuel c v h dead =
      let cost = item_cost k value in
      let (d, a) = absent_lem env k value ttl c v dead in
      elim (Bool-cases (leb (d.current + cost) d.max_memory)) [
        | inl fits ↦ add_loop_fits (suc fuel) c d a (leb→le _ _ fits)
        | inr full ↦
            let refused =
              add_absent_full env k value (now env c + ttl) d a.valid
                (omega (arith, a.limits.same_max)) (leb_false→lt _ _ full) in
            let (e, r, retries) =
              evicting_loop_retries env (add_attempt env k value ttl) false (suc fuel) cost c d
                a.valid (omega (arith, a.limits.same_max)) (a.attempts ∙ refused) in
            let absent : entry_at env e k ≡ none =
              elim (Shrinks-entry_at env d e k r.limits.same_shards r.shrinks) [
                | inl gone ↦ gone
                | inr same ↦ same ∙ a.absent
              ] in
            let (n, f, ends, w) =
              add_loop_fits fuel e (called e) (none-Absent env k value ttl e r.valid absent)
                r.space in
            (
              n,
              f,
              retries ∙ ends,
              Absent-Written c d f (expires env n (some ttl)) a
                  (Written-after env k value (expires env n (some ttl)) d e f r.shrinks r.limits w),
            )
      ]

-- `Add` with a positive TTL of a value whose cost is within the item limit, in a valid cache where
-- the key is absent or expired, ends and answers true; then the key holds the value until some
-- reading of the clock plus the TTL, each other key holds what it held or is gone, and the cache is
-- valid.
pub add_stores :
    (env : Env) (k : Key) (value : Bytes) (ttl : Duration) (c : MemoryCache)
    → IsValid c
    → not_positive ttl ≡ false
    → item_cost k value ≤ c.max_item_size
    → is_live (now env c) (entry_at env c k) ≡ false
    → (n : ℕ) × (d : MemoryCache) × (add env k (some value) ttl c ≡ some (success true, d))
      × Written env k value (expires env n (some (pos_part ttl))) c d
unfolding add AddWritten
add_stores env k value ttl c v positive fits dead =
    let (n, d, ends, w) =
      add_loop_written env k value (pos_part ttl) 1 c v (omega (arith, v.items_fit)) dead in
    (n, d, rw (positive, le→ltb_false (item_cost k value) c.max_item_size fits, ends), w)
