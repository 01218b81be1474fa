-- ===== src/Tiered/Tests.antt =====
-- Runs of the two-tier cache over two small backends, and the theorems about it at that state.
mod Many
mod Recovery
use frankenphp_tiered_cache.Base.{
  ℕ, zero, suc, ◌+◌, ◌≡◌, refl, Bool, true, false, Option, none, some, List, [], ◌∷◌, arith,
  if◌then◌else◌,
}
use frankenphp_tiered_cache.Base.Int.{pos}
use frankenphp_tiered_cache.Base.Dict.{Key, key_eq, lookup, insert, erase}
use frankenphp_tiered_cache.Contract.{Bytes, Error, Item, foreign, success, sentinel, closed}
use frankenphp_tiered_cache.Invalidation.{Event, invalidate, protocol_version, validate}
use frankenphp_tiered_cache.Tiered.State.{
  Backend, Bus, System, TieredCache, refusal, unavailable_error, observe_l2,
}
use frankenphp_tiered_cache.Tiered.Health.{
  reconcile, degrade_locked, transition_to_degraded, flush_l1_locked, flush_l1,
}
use frankenphp_tiered_cache.Tiered.Publish.{
  publish_or_mark, publish_key_invalidation, mark_pending_invalidation,
}
use frankenphp_tiered_cache.Tiered.Commit.{write_l1}
use frankenphp_tiered_cache.Tiered.Set.{set_locked, set_committed, add_locked}
use frankenphp_tiered_cache.Tiered.Count.{change_counter}
use frankenphp_tiered_cache.Tiered.Read.{Fetched, failed, retry, get_finish}
use frankenphp_tiered_cache.Tiered.Subscriber.{event_received, apply_invalidation}
use frankenphp_tiered_cache.Tiered.Correct.Reads.{get_finish_stale}
use frankenphp_tiered_cache.Tiered.Correct.Events.{set_locked_discards, apply_invalidation_discards}
use frankenphp_tiered_cache.Tiered.Correct.Mutate.{SetOutcome, set_locked-Outcome}
use frankenphp_tiered_cache.Tiered.Correct.Marked.{
  AddOutcome, CounterOutcome, add_locked-Outcome, change_counter-Outcome,
}
use frankenphp_tiered_cache.Tiered.Remove.{forget, flush}
use frankenphp_tiered_cache.Tiered.Correct.Flushes.{FlushOutcome, flush-Outcome}
use frankenphp_tiered_cache.Tiered.Correct.Removes.{ForgetOutcome, forget-Outcome}

abbrev key_a : Key
key_a = b'a' ∷ []

abbrev key_b : Key
key_b = b'b' ∷ []

abbrev ten : Bytes
ten = record { content = b'x' ∷ []; cap = 10 }

abbrev Values : Type 0
Values = List (Key × Bytes)

abbrev item : Option Bytes → Option Item
item none = none
item (some v) = some (record { value = v; ttl = 0 })

abbrev is_absent : Option Bytes → Bool
is_absent none = true
is_absent (some _) = false

abbrev is_present : Option Bytes → Bool
is_present none = false
is_present (some _) = true

-- A map without expiration, whose counters all answer 1.
abbrev backend : Backend Values
backend = record {
  get = λ k s. (s, success (item (lookup k s)));
  get_many = λ ks s. (s, success []);
  add = λ k v ttl s. (insert k v s, success (is_absent (lookup k s)));
  set_many = λ vs ttl s. (s, success true);
  set = λ k v ttl s. (insert k v s, success true);
  forever = λ k v s. (insert k v s, success true);
  forget = λ k s. (erase k s, success (is_present (lookup k s)));
  touch = λ k ttl s. (s, success (is_present (lookup k s)));
  flush = λ s. ([], success true);
  increment = λ k v s. (s, success (pos 1));
  decrement = λ k v s. (s, success (pos 1));
  close = λ s. (s, none);
}

-- The bus fails as often as its state says.
abbrev publish : Event → ℕ → ℕ × Option Error
publish event zero = (0, none)
publish event (suc n) = (n, some (foreign 0))

abbrev bus : Bus ℕ
bus = record { publish = publish; close = λ b. (b, none) }

abbrev system : System Values Values ℕ
system = record {
  l1 = backend;
  l2 = backend;
  bus = bus;
  has_bus = true;
  origin = b'o' ∷ [];
  clock = λ n. 1000 + n;
}

-- A healthy cache whose next publication fails.
abbrev healthy : TieredCache Values Values ℕ
healthy = record {
  l1 = (key_b, ten) ∷ [];
  l2 = (key_b, ten) ∷ [];
  bus = 1;
  metrics = [];
  degraded = false;
  state_err = none;
  health_epoch = 0;
  recovery_wake = false;
  pending_invalidations = [];
  pending_flush = false;
  mutation_version = 0;
  invalidation_ready = true;
  is_closed = false;
  close_err = none;
  readings = 0;
}

set_locked-Outcome_example :
    SetOutcome system key_a ten (some 500) healthy (set_locked system key_a ten (some 500) healthy)
set_locked-Outcome_example = set_locked-Outcome system key_a ten (some 500) healthy

add_locked-Outcome_example :
    AddOutcome system key_a ten 500 healthy (add_locked system key_a ten 500 healthy)
add_locked-Outcome_example = add_locked-Outcome system key_a ten 500 healthy

change_counter-Outcome_example :
    CounterOutcome system key_a
      (pos 1)
      false
      healthy
      (change_counter system key_a (pos 1) false healthy)
change_counter-Outcome_example = change_counter-Outcome system key_a (pos 1) false healthy

forget-Outcome_example : ForgetOutcome system key_b healthy (forget system key_b healthy)
forget-Outcome_example = forget-Outcome system key_b healthy

flush-Outcome_example : FlushOutcome system healthy (flush system healthy)
flush-Outcome_example = flush-Outcome system healthy

-- What a `Get` of `a` has found before the version changed.
abbrev read_before : Fetched
read_before = record { version = 0; started = 1000; value = none; err = none }

set_locked_discards_example :
    let u = (set_locked system key_a ten (some 500) healthy).0 in
    get_finish system key_b read_before u
    ≡ (u, if u.is_closed then failed (sentinel closed) else retry)
unfolding refusal unavailable_error
set_locked_discards_example =
    set_locked_discards system key_a key_b ten (some 500) read_before healthy refl refl refl

-- An invalidation of `a` by another instance.
abbrev remote : Event
remote = record {
  version = protocol_version;
  event_type = invalidate;
  key = key_a;
  origin = b'p' ∷ [];
}

apply_invalidation_discards_example :
    let u = (apply_invalidation system remote healthy).0 in
    get_finish system key_a read_before u ≡ (u, retry)
unfolding key_eq validate
apply_invalidation_discards_example =
    apply_invalidation_discards system remote key_a read_before healthy refl refl refl refl

-- The failed publication leaves the key waiting.
failed_publication :
    (set_locked system key_a ten (some 500) healthy).0.pending_invalidations ≡ (key_a, tt) ∷ []
unfolding set_locked refusal unavailable_error observe_l2 set_committed write_l1 reconcile
    publish_or_mark publish_key_invalidation mark_pending_invalidation degrade_locked
    transition_to_degraded flush_l1_locked flush_l1 insert
failed_publication = refl
