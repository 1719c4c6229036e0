-- ===== src/RateLimit/Tests.antt =====
-- The limiter at a rule of two calls in ten seconds.
use qtable_server.Base.{◌≤◌, String, true, some, [], ◌∷◌, ◌≡◌, refl, arith}
use qtable_server.Base.Result.{ok, err}
use qtable_server.Text.{is_space, lstrip, rstrip, strip, lower_eq}
use qtable_server.RateLimit.{
  RateLimitRule, RateLimitSettings, is_production, forgot_password_rate_limit_rules,
  reset_password_rate_limit_rules, reset_in_memory_rate_limits, rate_limit_exceeded, redis_key,
  purge, current, settle, count_call, count_calls, enforce_memory,
}
use qtable_server.RateLimit.Window.{let_through, let_through-limit}

abbrev two_calls : RateLimitRule
two_calls = record { namespace = "forgot-email"; subject = "a@b.c"; limit = 2; window_seconds = 10 }

abbrev plain : String → String
plain s = s

third_refused :
    (enforce_memory plain 103
      (two_calls ∷ [])
      (("qtable:auth-rate:forgot-email:a@b.c", (2, 110)) ∷ [])).0
    ≡ err (rate_limit_exceeded 7)
unfolding enforce_memory count_calls count_call settle current purge redis_key
third_refused = refl

let_through-limit_example : let_through plain two_calls (100 ∷ 101 ∷ 102 ∷ 109 ∷ []) [] ≤ 2
let_through-limit_example =
    let_through-limit plain two_calls 100 (101 ∷ 102 ∷ 109 ∷ []) [] refl
      (omega arith, (omega arith, (omega arith, tt)))

abbrev limits : RateLimitSettings
limits = record { forgot_email_limit = 2; submit_token_limit = 5; reset_window_seconds = 10 }

-- Spaces around an address give no further attempts.
same_account :
    forgot_password_rate_limit_rules plain limits " a@b.c "
    ≡ forgot_password_rate_limit_rules plain limits "a@b.c"
unfolding forgot_password_rate_limit_rules strip lstrip rstrip is_space
same_account = refl

-- A token and an address of the same text count apart.
counted_apart :
    (enforce_memory plain 103
      (reset_password_rate_limit_rules limits "a@b.c")
      (("qtable:auth-rate:forgot-email:a@b.c", (2, 110)) ∷ [])).0
    ≡ ok tt
unfolding enforce_memory count_calls count_call settle current purge redis_key
    reset_password_rate_limit_rules
counted_apart = refl

allowed_after_reset :
    (enforce_memory plain 103
      (two_calls ∷ [])
      (reset_in_memory_rate_limits (("qtable:auth-rate:forgot-email:a@b.c", (2, 110)) ∷ []))).0
    ≡ ok tt
unfolding enforce_memory count_calls count_call settle current purge redis_key
    reset_in_memory_rate_limits
allowed_after_reset = refl

production_spelled : is_production (some " Prod ") ≡ true
unfolding is_production strip lstrip rstrip is_space lower_eq
production_spelled = refl
