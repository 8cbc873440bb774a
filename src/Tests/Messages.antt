-- ===== src/Tests/Messages.antt =====
-- The limiter of messages and the delays between attempts.
use cj_store.Prelude.{ℕ, String, List, ◌≡◌, refl, none, ok, [], ◌∷◌, arith, true, false}
use cj_store.RateLimit.Spacing.{
  accepted_of, IsSpaced, check-IsSpaced, after_all, check-wait_suffices,
}
use cj_store.RateLimit.{
  RateLimiter, new, find, check, check_user, check_entry, UserRateLimit, Throttled, millis,
  per_user,
}

-- A user whose last message passed at 100 seconds.
abbrev known : UserRateLimit
known = record {
  last_message_time = millis 100000;
  last_attempt_time = millis 100000;
  consecutive_violations = 0;
  last_warn_time = none;
  last_whisper_time = none;
}

abbrev early : Throttled
early = (record { wait = millis 3000; should_whisper = true; reason = per_user })

abbrev one_user : RateLimiter
one_user = record {
  limits = ("alex-uuid", known) ∷ [];
  clamp_warned = false;
  cap_refusal_last_whisper = none;
  last_inline_sweep = none;
}

-- Alex sends too early and then again, and Ben sends in between.
abbrev chatter : List (String × ℕ)
chatter =
    ("alex-uuid", millis 1000000)
    ∷ ("ben-uuid", millis 1000000)
    ∷ ("alex-uuid", millis 1001000)
    ∷ ("alex-uuid", millis 1200000)
    ∷ []

check-IsSpaced_example : IsSpaced 0 (accepted_of "alex-uuid" chatter new)
check-IsSpaced_example =
    check-IsSpaced "alex-uuid" chatter
      (omega arith, (omega arith, (omega arith, (omega arith, tt))))

check-wait_suffices_example :
    (check "alex-uuid" (millis 104000) (
      after_all
        (("ben-uuid", millis 102000) ∷ [])
        (check "alex-uuid" (millis 101000) one_user).0)).1
    ≡ ok tt
unfolding find check check_user check_entry
check-wait_suffices_example =
    check-wait_suffices "alex-uuid" (millis 101000) (millis 104000) one_user known early
      (("ben-uuid", millis 102000) ∷ []) refl (omega arith) refl ((λ e. cc e, omega arith), tt)
      (omega arith)
