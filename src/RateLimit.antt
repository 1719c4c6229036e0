-- ===== src/RateLimit.antt =====
-- The limiter of password resets: app/services/auth_rate_limit.py. A reading of the monotonic clock
-- is an argument, in whole seconds. The Redis script is a service: its answers, a count and a time to
-- live for each rule, or the failure of the call, are arguments.
pub mod Window
mod Tests
use Prim.Native.String.{◌++◌ as join_text}
use qtable_server.Base.{
  ℕ, zero, suc, ◌+◌, ◌-◌, String, Bool, true, false, not, ◌||◌, Option, none, some, List, [], ◌∷◌,
  ◌==◌, string_eq, leb, ltb, if◌then◌else◌, Dict, lookup, insert, filter, length, max,
}
use qtable_server.Base.Result.{Result, ok, err}
use qtable_server.Text.{strip, lower_eq}

pub record RateLimitRule : Type 0 where
  pub namespace : String
  pub subject : String
  pub limit : ℕ
  pub window_seconds : ℕ

pub data RateLimitError : Type 0 where
  rate_limit_exceeded : ℕ → RateLimitError
  backend_unavailable : RateLimitError

-- `_is_production`; `APP_ENV` is a setting.
unfoldable pub is_production : Option String → Bool
is_production none = false
is_production (some app_env) =
    lower_eq (strip app_env) "prod" || lower_eq (strip app_env) "production"

-- The settings of the limiter of password resets.
pub record RateLimitSettings : Type 0 where
  pub forgot_email_limit : ℕ
  pub submit_token_limit : ℕ
  pub reset_window_seconds : ℕ

-- `str.lower` is the language's, an argument.
unfoldable pub forgot_password_rate_limit_rules :
    (String → String) → RateLimitSettings → String → List RateLimitRule
forgot_password_rate_limit_rules lower settings email =
    record {
      namespace = "forgot-email";
      subject = lower (strip email);
      limit = settings.forgot_email_limit;
      window_seconds = settings.reset_window_seconds;
    }
    ∷ []

unfoldable pub reset_password_rate_limit_rules : RateLimitSettings → String → List RateLimitRule
reset_password_rate_limit_rules settings token_hash =
    record {
      namespace = "reset-token";
      subject = token_hash;
      limit = settings.submit_token_limit;
      window_seconds = settings.reset_window_seconds;
    }
    ∷ []

-- Counts and deadlines by key.
abbrev pub Counters : Type 0
Counters = Dict (ℕ × ℕ)

-- `RateLimitExceeded(retry_after)` waits for a second at least.
abbrev pub exceeded : ℕ → RateLimitError
exceeded retry_after = rate_limit_exceeded (max retry_after 1)

-- `_redis_key`; the digest of the subject is a function that the code takes from hashlib.
unfoldable pub redis_key : (String → String) → RateLimitRule → String
redis_key hashed rule =
    join_text "qtable:auth-rate:" (join_text rule.namespace (join_text ":" (hashed rule.subject)))

abbrev live : ℕ → String × (ℕ × ℕ) → Bool
live now e = ltb now e.1.1

-- Keys past their deadline go once there are more than ten thousand.
unfoldable pub purge : ℕ → Counters → Counters
purge now counters = if ltb 10000 (length counters) then filter (live now) counters else counters

-- The count and the deadline that a call goes by: those stored, or new ones behind a deadline.
unfoldable pub current : ℕ → ℕ → Option (ℕ × ℕ) → ℕ × ℕ
current now window_seconds none = (0, now + window_seconds)
current now window_seconds (some (count, deadline)) =
    if leb deadline now then (0, now + window_seconds) else (count, deadline)

-- The count goes up also where the call is refused.
unfoldable pub settle :
    ℕ → RateLimitRule → String → ℕ × ℕ → Counters → Result RateLimitError (Unit {0}) × Counters
settle now rule key (count, deadline) counters = (
  (if ltb rule.limit (suc count) then err (exceeded (max (deadline - now) 1)) else ok tt),
  insert key (suc count, deadline) counters,
)

-- One round of the loop of `_enforce_memory`.
unfoldable pub count_call :
    (String → String) → ℕ → RateLimitRule → Counters → Result RateLimitError (Unit {0}) × Counters
count_call hashed now rule counters =
    let key = redis_key hashed rule in
    settle now rule key (current now rule.window_seconds (lookup key counters)) counters

abbrev pub next_rule :
    Result RateLimitError (Unit {0}) × Counters
    → (Counters → Result RateLimitError (Unit {0}) × Counters)
    → Result RateLimitError (Unit {0}) × Counters
next_rule (ok u, counters) rest = rest counters
next_rule (err e, counters) rest = (err e, counters)

unfoldable pub count_calls :
    (String → String)
    → ℕ
    → List RateLimitRule
    → Counters
    → Result RateLimitError (Unit {0}) × Counters
count_calls hashed now [] counters = (ok tt, counters)
count_calls hashed now (rule ∷ rules) counters =
    next_rule (count_call hashed now rule counters) (count_calls hashed now rules)

unfoldable pub enforce_memory :
    (String → String)
    → ℕ
    → List RateLimitRule
    → Counters
    → Result RateLimitError (Unit {0}) × Counters
enforce_memory hashed now rules counters = count_calls hashed now rules (purge now counters)

-- What the script answers for the rules in turn; `none` is a `RedisError`.
unfoldable pub enforce_redis :
    List (RateLimitRule × Option (ℕ × ℕ)) → Option (Result RateLimitError (Unit {0}))
enforce_redis [] = some (ok tt)
enforce_redis ((rule, none) ∷ rules) = none
enforce_redis ((rule, some (count, ttl)) ∷ rules) =
    let rest = enforce_redis rules in
    if ltb rule.limit count then some (err (exceeded (max ttl 1))) else rest

-- `enforce_password_reset_rate_limits`, given the settings and the answer of the backend.
unfoldable pub enforce_password_reset_rate_limits :
    Bool
    → Bool
    → Option (Result RateLimitError (Unit {0}))
    → (String → String)
    → ℕ
    → List RateLimitRule
    → Counters
    → Result RateLimitError (Unit {0}) × Counters
enforce_password_reset_rate_limits false production answer hashed now rules counters =
    if production then (err backend_unavailable, counters) else (ok tt, counters)
enforce_password_reset_rate_limits true production (some result) hashed now rules counters =
    (result, counters)
enforce_password_reset_rate_limits true production none hashed now rules counters =
    let fallback = enforce_memory hashed now rules counters in
    if production then (err backend_unavailable, counters) else fallback

-- `reset_in_memory_rate_limits_for_tests`.
unfoldable pub reset_in_memory_rate_limits : Counters → Counters
reset_in_memory_rate_limits counters = []
