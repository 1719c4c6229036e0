-- ===== src/RateLimit/Window.antt =====
-- How many calls the in-memory limiter lets through in a window (app/services/auth_rate_limit.py).
use qtable_server.Base.{
  ℕ, suc, ◌+◌, ◌≤◌, ◌<◌, ◌-◌, String, Bool, true, false, none, some, List, [], ◌∷◌, ◌≡◌, refl, ap,
  ◌∙◌, arith, eq_iff, inl, inr, string_eq, ltb, if◌then◌else◌, lookup, insert, filter, All,
  lookup-insert, Bool-cases, max,
}
use qtable_server.Base.Result.{Result, ok, err}
use qtable_server.RateLimit.{
  RateLimitRule, RateLimitError, Counters, redis_key, purge, current, exceeded, next_rule, settle,
  count_call, count_calls, enforce_memory,
}

abbrev passed : Result RateLimitError (Unit {0}) → ℕ → ℕ
passed (ok u) later = suc later
passed (err e) later = later

-- The calls of one subject at the given times, and how many of them are let through.
unfoldable pub let_through : (String → String) → RateLimitRule → List ℕ → Counters → ℕ
let_through hashed rule [] counters = 0
let_through hashed rule (now ∷ times) counters =
    let (result, counters') = enforce_memory hashed now (rule ∷ []) counters in
    passed result (let_through hashed rule times counters')

live-lookup :
    (now : ℕ) (k : String) (c d : ℕ) (counters : Counters)
    → lookup k counters ≡ some (c, d)
    → now < d
    → lookup k (filter (λ e. ltb now e.1.1) counters) ≡ some (c, d)
live-lookup now k c d [] h before = cc
live-lookup now k c d ((j, (c', d')) ∷ counters) h before =
    ground (arith, live-lookup now k c d counters)

purge-lookup :
    (now : ℕ) (k : String) (c d : ℕ) (counters : Counters)
    → lookup k counters ≡ some (c, d)
    → now < d
    → lookup k (purge now counters) ≡ some (c, d)
unfolding purge
purge-lookup now k c d counters h before = ground (arith, live-lookup now k c d counters)

absent-lookup :
    (now : ℕ) (k : String) (counters : Counters)
    → lookup k counters ≡ none
    → lookup k (filter (λ e. ltb now e.1.1) counters) ≡ none
absent-lookup now k [] h = refl
absent-lookup now k ((j, (c', d')) ∷ counters) h = ground (arith, absent-lookup now k counters)

purge-absent :
    (now : ℕ) (k : String) (counters : Counters)
    → lookup k counters ≡ none
    → lookup k (purge now counters) ≡ none
unfolding purge
purge-absent now k counters h = ground (arith, absent-lookup now k counters)

verdict : ℕ → RateLimitRule → ℕ → ℕ → Result RateLimitError (Unit {0})
verdict now rule c d = if ltb rule.limit (suc c) then err (exceeded (max (d - now) 1)) else ok tt

-- A single rule, at the count and the deadline that the call goes by.
settled :
    (hashed : String → String) (rule : RateLimitRule) (now c d : ℕ) (counters : Counters)
    → current now rule.window_seconds (lookup (redis_key hashed rule) (purge now counters)) ≡ (c, d)
    → enforce_memory hashed now (rule ∷ []) counters
      ≡ (verdict now rule c d, insert (redis_key hashed rule) (suc c, d) (purge now counters))
unfolding enforce_memory count_calls count_call settle verdict
settled hashed rule now c d counters e =
    ap
      (λ p.
        next_rule (settle now rule (redis_key hashed rule) p (purge now counters))
          (count_calls hashed now []))
      e
    ∙ one_rule (ltb rule.limit (suc c))
  where
    one_rule :
        (b : Bool)
        → next_rule
            (
              (if b then err (exceeded (max (d - now) 1)) else ok tt),
              insert (redis_key hashed rule) (suc c, d) (purge now counters),
            )
            (count_calls hashed now [])
          ≡ (
            (if b then err (exceeded (max (d - now) 1)) else ok tt),
            insert (redis_key hashed rule) (suc c, d) (purge now counters),
          )
    one_rule true = refl
    one_rule false = refl

inserted : (k : String) (v : ℕ × ℕ) (counters : Counters) → lookup k (insert k v counters) ≡ some v
inserted k v counters = ground (arith, eq_iff k k, lookup-insert k k v counters)

passed-le :
    (now : ℕ) (rule : RateLimitRule) (c d later : ℕ)
    → later ≤ rule.limit - suc c
    → passed (verdict now rule c d) later ≤ rule.limit - c
unfolding verdict
passed-le now rule c d later h = elim (Bool-cases (ltb rule.limit (suc c))) [
  | inl full ↦ rw full (omega (arith, h))
  | inr free ↦ rw free (ground (arith, h))
]

-- Before its deadline a counter lets through no more calls than the limit has left.
let_through-left :
    (hashed : String → String) (rule : RateLimitRule) (times : List ℕ) (c d : ℕ)
    (counters : Counters)
    → lookup (redis_key hashed rule) counters ≡ some (c, d)
    → All (λ t. t < d) times
    → let_through hashed rule times counters ≤ rule.limit - c
unfolding let_through current
let_through-left hashed rule [] c d counters h before = omega arith
let_through-left hashed rule (now ∷ times) c d counters h before =
    let e : current now rule.window_seconds (lookup (redis_key hashed rule) (purge now counters))
        ≡ (c, d) =
      rw (purge-lookup now (redis_key hashed rule) c d counters h before.0)
        (ground (arith, before.0)) in
    rw (settled hashed rule now c d counters e) (
      passed-le now rule c d _ (
        let_through-left hashed rule times (suc c) d _
          (inserted (redis_key hashed rule) (suc c, d) (purge now counters)) before.1))

minus_zero : (a b : ℕ) → a ≤ b - 0 → a ≤ b
minus_zero a b h = omega (arith, h)

-- From a subject's first call on, no more calls than the limit are let through before the window
-- has passed, however many are made and whatever other keys are dropped on the way.
pub let_through-limit :
    (hashed : String → String) (rule : RateLimitRule) (now : ℕ) (times : List ℕ)
    (counters : Counters)
    → lookup (redis_key hashed rule) counters ≡ none
    → All (λ t. t < now + rule.window_seconds) times
    → let_through hashed rule (now ∷ times) counters ≤ rule.limit
unfolding let_through current
let_through-limit hashed rule now times counters h before =
    let e : current now rule.window_seconds (lookup (redis_key hashed rule) (purge now counters))
        ≡ (0, now + rule.window_seconds) =
      rw (purge-absent now (redis_key hashed rule) counters h) refl in
    rw (settled hashed rule now 0 (now + rule.window_seconds) counters e) (
      minus_zero _ _ (
        passed-le now rule 0 (now + rule.window_seconds) _ (
          let_through-left hashed rule times 1 (now + rule.window_seconds) _
            (inserted (redis_key hashed rule) (1, now + rule.window_seconds) (purge now counters))
            before)))
