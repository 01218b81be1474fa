-- ===== src/Observability/Correct/Counts.antt =====
-- What the counters of an operation count (internal/observability/metrics.go).
use frankenphp_tiered_cache.Base.{
  ℕ, ◌<◌, ◌≡◌, refl, ap, ◌∙◌, Bool, true, false, List, [], ◌∷◌, ◌==◌, leb, length, get_or, set,
  length-set, get_or-set_self, get_or-set_ne, if◌then◌else◌, arith,
}
use frankenphp_tiered_cache.Base.Word.{add64}
use frankenphp_tiered_cache.Observability.Observation.{
  Operation, LookupResult, SubscriberErrorStage, L1FlushFallbackResult, published, received,
  key_invalidation, flush_invalidation, invalidation_success, invalidation_error, ignored_self,
  Observation, lookups, l1_misses, l2_call, batch, set_degraded, subscriber_error,
  post_commit_error, recovery_attempt, recovery_result, invalidation_ready, invalidation,
  pending_invalidations, pending_flush, l1_mutation_error, l1_flush_fallback,
}
use frankenphp_tiered_cache.Observability.Metrics
use frankenphp_tiered_cache.Observability.Metrics.{
  add_at, observe_call, observe_l2, add_batch, observe_batch, observe_one, recorded, bucket_of,
  observe_lookups, observe_l1_misses, observe_subscriber_error, observe_post_commit_error,
  observe_recovery_attempt, observe_recovery_result, set_invalidation_ready, observe_invalidation,
  set_pending_invalidations, set_pending_flush, observe_l1_mutation_error,
  observe_l1_flush_fallback,
}
use frankenphp_tiered_cache.Observability.State.{
  operation_code, operation_count, error_code, L2OperationState, empty_operation, MetricsState,
  new_metrics,
}

-- What the metrics hold of an operation.
abbrev pub at : Operation → MetricsState → L2OperationState
at op m = get_or m.l2 (operation_code op) empty_operation

-- What an observation does to an operation's state.
abbrev pub same_operation : Operation → Operation → Bool
same_operation a b = operation_code a == operation_code b

abbrev pub change : Operation → Observation → L2OperationState → L2OperationState
change op (l2_call a elapsed class) s =
    if same_operation a op then observe_call elapsed (error_code class) s else s
change op (batch a items) s = if same_operation a op then add_batch items s else s
change op _ s = s

operation_code_lt : (op : Operation) → operation_code op < 12
operation_code_lt Operation.get = omega arith
operation_code_lt Operation.get_many = omega arith
operation_code_lt Operation.set = omega arith
operation_code_lt Operation.set_many = omega arith
operation_code_lt Operation.add = omega arith
operation_code_lt Operation.forever = omega arith
operation_code_lt Operation.forget = omega arith
operation_code_lt Operation.touch = omega arith
operation_code_lt Operation.flush = omega arith
operation_code_lt Operation.increment = omega arith
operation_code_lt Operation.decrement = omega arith
operation_code_lt Operation.recovery_probe = omega arith

-- A changed cell of the table, read at any index.
get_or-set :
    (xs : List L2OperationState) (i j : ℕ) (v : L2OperationState)
    → i < length xs
    → get_or (set xs i v) j empty_operation ≡ (if i == j then v else get_or xs j empty_operation)
get_or-set xs i j v h = go (i == j) refl
  where
    go :
        (b : Bool)
        → i == j ≡ b
        → get_or (set xs i v) j empty_operation ≡ (if b then v else get_or xs j empty_operation)
    go true e =
        ap (λ k. get_or (set xs i v) k empty_operation) (ground (arith, e))
        ∙ get_or-set_self xs i v empty_operation h
    go false e = get_or-set_ne xs i j v empty_operation (ground (arith, e))

if_same :
    (a op : Operation) (f : L2OperationState → L2OperationState) (m : MetricsState)
    → length m.l2 ≡ 12
    → get_or (set m.l2 (operation_code a) (f (at a m))) (operation_code op) empty_operation
      ≡ (if same_operation a op then f (at op m) else at op m)
if_same a op f m h =
    get_or-set m.l2 (operation_code a) (operation_code op) (f (at a m))
      (omega (arith, h, operation_code_lt a))
    ∙ go (same_operation a op) refl
  where
    go :
        (b : Bool)
        → same_operation a op ≡ b
        → (if b then f (at a m) else at op m) ≡ (if b then f (at op m) else at op m)
    go true e = ap (λ k. f (get_or m.l2 k empty_operation)) (ground (arith, e))
    go false e = refl

-- The table keeps its length, and each observation changes the operation that it names.
abbrev TracksIn : Operation → Observation → MetricsState → MetricsState → Type 0
TracksIn op o m m1 = (length m1.l2 ≡ 12) × (at op m1 ≡ change op o (at op m))

guarded :
    (a op : Operation) (f : L2OperationState → L2OperationState) (m : MetricsState) (b : Bool)
    → leb operation_count (operation_code a) ≡ b
    → length m.l2 ≡ 12
    → (length (if b then m else record m { l2 = set m.l2 (operation_code a) (f (at a m)) }).l2 ≡ 12)
      × (at op (if b then m else record m { l2 = set m.l2 (operation_code a) (f (at a m)) })
          ≡ (if same_operation a op then f (at op m) else at op m))
guarded a op f m true e h = ground (arith, e, operation_code_lt a)
guarded a op f m false e h =
    (length-set m.l2 (operation_code a) (f (at a m)) ∙ h, if_same a op f m h)

degraded_twice :
    (op : Operation) (m : MetricsState) (b : Bool)
    → length m.l2 ≡ 12
    → TracksIn op (set_degraded true) m (
        if b
        then record m { degraded = 1; degraded_transitions = add64 m.degraded_transitions 1 }
        else m)
degraded_twice op m true h = (h, refl)
degraded_twice op m false h = (h, refl)

at-observe_one :
    (op : Operation) (o : Observation) (m : MetricsState)
    → length m.l2 ≡ 12
    → TracksIn op o m (observe_one o m)
unfolding observe_one observe_lookups observe_l1_misses observe_l2 observe_batch
    Metrics.set_degraded observe_subscriber_error observe_post_commit_error observe_recovery_attempt
    observe_recovery_result set_invalidation_ready observe_invalidation set_pending_invalidations
    set_pending_flush observe_l1_mutation_error observe_l1_flush_fallback
at-observe_one op (l2_call a elapsed class) m h =
    guarded a op (observe_call elapsed (error_code class)) m
      (leb operation_count (operation_code a)) refl h
at-observe_one op (batch a items) m h =
    guarded a op (add_batch items) m (leb operation_count (operation_code a)) refl h
at-observe_one op (set_degraded true) m h = degraded_twice op m (m.degraded == 0) h
at-observe_one op (lookups LookupResult.l1_hit n) m h = (h, refl)
at-observe_one op (lookups LookupResult.l2_hit n) m h = (h, refl)
at-observe_one op (lookups LookupResult.miss n) m h = (h, refl)
at-observe_one op (subscriber_error SubscriberErrorStage.stage_subscribe) m h = (h, refl)
at-observe_one op (subscriber_error SubscriberErrorStage.stage_receive) m h = (h, refl)
at-observe_one op (subscriber_error SubscriberErrorStage.stage_apply) m h = (h, refl)
at-observe_one op (l1_flush_fallback L1FlushFallbackResult.fallback_success) m h = (h, refl)
at-observe_one op (l1_flush_fallback L1FlushFallbackResult.fallback_failure) m h = (h, refl)
at-observe_one op (set_degraded false) m h = (h, refl)
at-observe_one op (recovery_result true) m h = (h, refl)
at-observe_one op (recovery_result false) m h = (h, refl)
at-observe_one op (post_commit_error Operation.get) m h = (h, refl)
at-observe_one op (post_commit_error Operation.get_many) m h = (h, refl)
at-observe_one op (post_commit_error Operation.set) m h = (h, refl)
at-observe_one op (post_commit_error Operation.set_many) m h = (h, refl)
at-observe_one op (post_commit_error Operation.add) m h = (h, refl)
at-observe_one op (post_commit_error Operation.forever) m h = (h, refl)
at-observe_one op (post_commit_error Operation.forget) m h = (h, refl)
at-observe_one op (post_commit_error Operation.touch) m h = (h, refl)
at-observe_one op (post_commit_error Operation.flush) m h = (h, refl)
at-observe_one op (post_commit_error Operation.increment) m h = (h, refl)
at-observe_one op (post_commit_error Operation.decrement) m h = (h, refl)
at-observe_one op (post_commit_error Operation.recovery_probe) m h = (h, refl)
at-observe_one op (invalidation published key_invalidation invalidation_success) m h = (h, refl)
at-observe_one op (invalidation published key_invalidation invalidation_error) m h = (h, refl)
at-observe_one op (invalidation published key_invalidation ignored_self) m h = (h, refl)
at-observe_one op (invalidation published flush_invalidation invalidation_success) m h = (h, refl)
at-observe_one op (invalidation published flush_invalidation invalidation_error) m h = (h, refl)
at-observe_one op (invalidation published flush_invalidation ignored_self) m h = (h, refl)
at-observe_one op (invalidation received key_invalidation invalidation_success) m h = (h, refl)
at-observe_one op (invalidation received key_invalidation invalidation_error) m h = (h, refl)
at-observe_one op (invalidation received key_invalidation ignored_self) m h = (h, refl)
at-observe_one op (invalidation received flush_invalidation invalidation_success) m h = (h, refl)
at-observe_one op (invalidation received flush_invalidation invalidation_error) m h = (h, refl)
at-observe_one op (invalidation received flush_invalidation ignored_self) m h = (h, refl)
at-observe_one op (l1_misses n) m h = (h, refl)
at-observe_one op recovery_attempt m h = (h, refl)
at-observe_one op (invalidation_ready b) m h = (h, refl)
at-observe_one op (pending_invalidations n) m h = (h, refl)
at-observe_one op (pending_flush b) m h = (h, refl)
at-observe_one op l1_mutation_error m h = (h, refl)

-- What the observations of a list, the last one first, make of an operation's state.
abbrev pub changes : Operation → List Observation → L2OperationState
changes op [] = empty_operation
changes op (o ∷ os) = change op o (changes op os)

at-new_metrics : (op : Operation) → at op new_metrics ≡ empty_operation
at-new_metrics Operation.get = refl
at-new_metrics Operation.get_many = refl
at-new_metrics Operation.set = refl
at-new_metrics Operation.set_many = refl
at-new_metrics Operation.add = refl
at-new_metrics Operation.forever = refl
at-new_metrics Operation.forget = refl
at-new_metrics Operation.touch = refl
at-new_metrics Operation.flush = refl
at-new_metrics Operation.increment = refl
at-new_metrics Operation.decrement = refl
at-new_metrics Operation.recovery_probe = refl

pub at-recorded :
    (op : Operation) (os : List Observation)
    → (length (recorded os).l2 ≡ 12) × (at op (recorded os) ≡ changes op os)
unfolding recorded
at-recorded op [] = (refl, at-new_metrics op)
at-recorded op (o ∷ os) =
    let (l, e) = at-recorded op os in
    let (l1, e1) = at-observe_one op o (recorded os) l in (l1, e1 ∙ ap (change op o) e)
