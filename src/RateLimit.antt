-- ===== src/RateLimit.antt =====
-- src/store/rate_limit.rs: the limiter of the players' messages. An `Instant` and a `Duration` are
-- nanoseconds, `duration_since` stops at 0, and the hash map is a list of its entries.
pub mod Cooldown
pub mod Gate
pub mod Next
pub mod Spacing
use cj_store.Prelude.{
  ℕ, ◌+◌, ◌-◌, ◌*◌, ◌^◌, Bool, true, false, not, ◌&&◌, ◌||◌, Option, none, some, List, [], ◌∷◌,
  Result, ok, err, if◌then◌else◌, ltb, leb, ◌==◌, str_eq, String, min, max, length, retain,
}

-- `Duration::from_millis`
abbrev pub millis : ℕ → ℕ
millis n = n * 1000000

abbrev pub base_cooldown_ms : ℕ
base_cooldown_ms = 2000

abbrev pub max_cooldown_ms : ℕ
max_cooldown_ms = 60000

abbrev pub reset_after_ms : ℕ
reset_after_ms = 90000

abbrev pub saturation_threshold : ℕ
saturation_threshold = 5

abbrev pub max_rate_limit_entries : ℕ
max_rate_limit_entries = 10000

abbrev pub u32_max : ℕ
u32_max = 2 ^ 32 - 1

abbrev pub u64_max : ℕ
u64_max = 2 ^ 64 - 1

pub record UserRateLimit : Type 0 where
  pub last_message_time : ℕ
  pub last_attempt_time : ℕ
  pub consecutive_violations : ℕ
  pub last_warn_time : Option ℕ
  pub last_whisper_time : Option ℕ

pub data ThrottleReason : Type 0 where
  per_user global_cap : ThrottleReason

pub record Throttled : Type 0 where
  pub wait : ℕ
  pub should_whisper : Bool
  pub reason : ThrottleReason

pub record RateLimiter : Type 0 where
  pub limits : List (String × UserRateLimit)
  pub clamp_warned : Bool
  pub cap_refusal_last_whisper : Option ℕ
  pub last_inline_sweep : Option ℕ

unfoldable pub new : RateLimiter
new = record {
  limits = [];
  clamp_warned = false;
  cap_refusal_last_whisper = none;
  last_inline_sweep = none;
}

-- Both the shift's exponent and the product saturate.
unfoldable pub calculate_cooldown : ℕ → ℕ
calculate_cooldown violations =
    millis (min (min u64_max (base_cooldown_ms * 2 ^ min violations 10)) max_cooldown_ms)

-- `is_none_or(|t| now - t >= window)`
abbrev pub is_due : ℕ → ℕ → Option ℕ → Bool
is_due now window none = true
is_due now window (some t) = leb window (now - t)

-- A record that is made for a first message, dated back past every cooldown if the clock allows.
unfoldable pub first_seen : ℕ → UserRateLimit
first_seen now = record {
  last_message_time =
      if leb (millis (max_cooldown_ms + 1)) now then now - millis (max_cooldown_ms + 1) else now;
  last_attempt_time = now;
  consecutive_violations = 0;
  last_warn_time = none;
  last_whisper_time = none;
}

-- A long silence forgives the violations; every attempt is noted.
unfoldable pub note_attempt : ℕ → UserRateLimit → UserRateLimit
note_attempt now u =
    if leb (millis reset_after_ms) (now - u.last_attempt_time)
    then record u {
      consecutive_violations = 0;
      last_warn_time = none;
      last_whisper_time = none;
      last_attempt_time = now;
    }
    else record u { last_attempt_time = now }

-- `match last { None => true, Some(_) if saturation => true, Some(prev) => now - prev >= window }`
abbrev pub should_tell : Bool → ℕ → Option ℕ → Bool
should_tell saturates now none = true
should_tell saturates now (some t) = saturates || leb (millis reset_after_ms) (now - t)

-- The refusal of a message that came too early, `elapsed` after the last accepted one.
unfoldable pub refuse : ℕ → ℕ → UserRateLimit → UserRateLimit × Throttled
unfolding calculate_cooldown
refuse now elapsed u =
    let v = min u32_max (u.consecutive_violations + 1) in
    let saturates = v == saturation_threshold in
    let warns = should_tell saturates now u.last_warn_time in
    let whispers = should_tell saturates now u.last_whisper_time in
    (
      record u {
        consecutive_violations = v;
        last_warn_time = if warns then some now else u.last_warn_time;
        last_whisper_time = if whispers then some now else u.last_whisper_time;
      },
      record {
        wait = calculate_cooldown v - elapsed;
        should_whisper = whispers;
        reason = per_user;
      },
    )

-- The part of `check` on one user's record.
unfoldable pub check_user : ℕ → UserRateLimit → UserRateLimit × Result (Unit {0}) Throttled
unfolding note_attempt refuse
check_user now u =
    let elapsed = now - u.last_message_time in
    let u' = note_attempt now u in
    let (u'', t) = refuse now elapsed u' in
    if leb (calculate_cooldown u'.consecutive_violations) elapsed
    then (record u' { last_message_time = now }, ok tt)
    else (u'', err t)

-- The hash map's operations.
unfoldable pub find : String → List (String × UserRateLimit) → Option UserRateLimit
find k [] = none
find k ((j, u) ∷ l) = if str_eq j k then some u else find k l

unfoldable pub put :
    String → UserRateLimit → List (String × UserRateLimit) → List (String × UserRateLimit)
put k u [] = (k, u) ∷ []
put k u ((j, v) ∷ l) = if str_eq j k then (k, u) ∷ l else (j, v) ∷ put k u l

-- The floor of the threshold, and the flag that its warning was given.
unfoldable pub clamp_stale_threshold : ℕ → Bool → ℕ × Bool
clamp_stale_threshold threshold warned =
    let clamped = max threshold (millis reset_after_ms) in
    (clamped, warned || ltb threshold clamped)

abbrev pub is_fresh : ℕ → ℕ → String × UserRateLimit → Bool
is_fresh now threshold e = ltb (now - e.1.last_attempt_time) threshold

unfoldable pub cleanup_stale_clamped : ℕ → ℕ → RateLimiter → RateLimiter
unfolding clamp_stale_threshold
cleanup_stale_clamped threshold now r =
    let (clamped, warned) = clamp_stale_threshold threshold r.clamp_warned in
    let kept = retain (is_fresh now clamped) r.limits in
    record r {
      limits = kept;
      clamp_warned = warned;
      cap_refusal_last_whisper =
          if ltb (length kept) (length r.limits) then none else r.cap_refusal_last_whisper;
    }

abbrev pub is_none : Option UserRateLimit → Bool
is_none none = true
is_none (some _) = false

abbrev pub is_full : String → RateLimiter → Bool
is_full uuid r = is_none (find uuid r.limits) && leb max_rate_limit_entries (length r.limits)

-- The sweep in the path of a new user, at most once in a base cooldown.
unfoldable pub sweep_if_full : ℕ → RateLimiter → RateLimiter
unfolding cleanup_stale_clamped
sweep_if_full now r =
    if is_due now (millis base_cooldown_ms) r.last_inline_sweep
    then record (cleanup_stale_clamped (millis reset_after_ms) now r) {
      last_inline_sweep = some now;
    }
    else r

unfoldable pub refuse_at_cap : ℕ → RateLimiter → RateLimiter × Result (Unit {0}) Throttled
refuse_at_cap now r =
    let whispers = is_due now (millis reset_after_ms) r.cap_refusal_last_whisper in
    (
      record r {
        cap_refusal_last_whisper = if whispers then some now else r.cap_refusal_last_whisper;
      },
      err (record { wait = millis reset_after_ms; should_whisper = whispers; reason = global_cap }),
    )

abbrev or_first : ℕ → Option UserRateLimit → UserRateLimit
or_first now none = first_seen now
or_first now (some u) = u

unfoldable pub check_entry : String → ℕ → RateLimiter → RateLimiter × Result (Unit {0}) Throttled
check_entry uuid now r =
    let (u, answer) = check_user now (or_first now (find uuid r.limits)) in
    (record r { limits = put uuid u r.limits }, answer)

unfoldable pub check : String → ℕ → RateLimiter → RateLimiter × Result (Unit {0}) Throttled
check uuid now r =
    let swept = sweep_if_full now r in
    if not (is_full uuid r)
    then check_entry uuid now r
    else if leb max_rate_limit_entries (length swept.limits)
    then refuse_at_cap now swept
    else check_entry uuid now swept
