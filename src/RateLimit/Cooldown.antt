-- ===== src/RateLimit/Cooldown.antt =====
-- The cooldown after a number of violations, and the limiter's verdict on one user's record.
use cj_store.Prelude.{ℕ, zero, suc, ◌+◌, ◌-◌, ◌≤◌, ◌≡◌, refl, Result, ok, err, arith, min}
use cj_store.RateLimit.{
  UserRateLimit, Throttled, millis, calculate_cooldown, check_user, base_cooldown_ms,
  max_cooldown_ms,
}

-- The ladder of cooldowns, in milliseconds.
abbrev pub ladder : ℕ → ℕ
ladder zero = 2000
ladder (suc zero) = 4000
ladder (suc (suc zero)) = 8000
ladder (suc (suc (suc zero))) = 16000
ladder (suc (suc (suc (suc zero)))) = 32000
ladder (suc (suc (suc (suc (suc v))))) = 60000

capped : (v : ℕ) → min (suc (suc (suc (suc (suc (suc (suc (suc (suc (suc v)))))))))) 10 ≡ 10
capped v = omega arith

-- The cooldown doubles from 2 seconds with each violation, and stays at 60 seconds from the fifth
-- on, whatever the number of violations.
pub calculate_cooldown-eq-ladder : (v : ℕ) → calculate_cooldown v ≡ millis (ladder v)
unfolding calculate_cooldown
calculate_cooldown-eq-ladder zero = refl
calculate_cooldown-eq-ladder (suc zero) = refl
calculate_cooldown-eq-ladder (suc (suc zero)) = refl
calculate_cooldown-eq-ladder (suc (suc (suc zero))) = refl
calculate_cooldown-eq-ladder (suc (suc (suc (suc zero)))) = refl
calculate_cooldown-eq-ladder (suc (suc (suc (suc (suc zero))))) = refl
calculate_cooldown-eq-ladder (suc (suc (suc (suc (suc (suc zero)))))) = refl
calculate_cooldown-eq-ladder (suc (suc (suc (suc (suc (suc (suc zero))))))) = refl
calculate_cooldown-eq-ladder (suc (suc (suc (suc (suc (suc (suc (suc zero)))))))) = refl
calculate_cooldown-eq-ladder (suc (suc (suc (suc (suc (suc (suc (suc (suc zero))))))))) = refl
calculate_cooldown-eq-ladder (suc (suc (suc (suc (suc (suc (suc (suc (suc (suc v)))))))))) =
    rw (capped v)

ladder_bounds : (v : ℕ) → (base_cooldown_ms ≤ ladder v) × (ladder v ≤ max_cooldown_ms)
ladder_bounds zero = omega arith
ladder_bounds (suc zero) = omega arith
ladder_bounds (suc (suc zero)) = omega arith
ladder_bounds (suc (suc (suc zero))) = omega arith
ladder_bounds (suc (suc (suc (suc zero)))) = omega arith
ladder_bounds (suc (suc (suc (suc (suc v))))) = omega arith

pub cooldown_bounds :
    (v : ℕ)
    → (millis base_cooldown_ms ≤ calculate_cooldown v)
      × (calculate_cooldown v ≤ millis max_cooldown_ms)
cooldown_bounds v = omega (arith, calculate_cooldown-eq-ladder v, ladder_bounds v)

-- What one attempt at `now` does to a record.
pub record Judges (now : ℕ) (u u' : UserRateLimit) (answer : Result (Unit {0}) Throttled)
    : Type 0 where
  pub attempted : u'.last_attempt_time ≡ now
  pub accepted :
      answer ≡ ok tt
      → (millis base_cooldown_ms ≤ now - u.last_message_time) × (u'.last_message_time ≡ now)
  pub refused :
      (t : Throttled)
      → answer ≡ err t
      → (u'.last_message_time ≡ u.last_message_time)
        × (t.wait ≡ calculate_cooldown u'.consecutive_violations - (now - u.last_message_time))

-- An accepted message comes at least the base cooldown after the one accepted before it, and its
-- time is put on record; a refused one leaves that time, and its advertised wait is what is left
-- of the cooldown that the raised number of violations gives. Both note the attempt.
pub check_user-Judges :
    (now : ℕ) (u : UserRateLimit) → let (u', answer) = check_user now u in Judges now u u' answer
unfolding check_user
check_user-Judges now u = record {
  attempted = ground arith;
  accepted = λ e. ground (arith, e, cooldown_bounds u.consecutive_violations, cooldown_bounds 0);
  refused = λ t e. ground (arith, e);
}

ladder_least : (v : ℕ) → calculate_cooldown 0 ≤ calculate_cooldown v
ladder_least v =
    omega (arith, calculate_cooldown-eq-ladder v, calculate_cooldown-eq-ladder 0, ladder_bounds v)

pub passes :
    (later : ℕ) (u : UserRateLimit)
    → calculate_cooldown u.consecutive_violations ≤ later - u.last_message_time
    → (check_user later u).1 ≡ ok tt
unfolding check_user
passes later u h = ground (arith, h, ladder_least u.consecutive_violations)

-- The advertised wait suffices: a user who was refused, and sends nothing for as long as the
-- refusal said, is accepted.
pub wait_suffices :
    (now later : ℕ) (u : UserRateLimit) (t : Throttled)
    → u.last_message_time ≤ now
    → (check_user now u).1 ≡ err t
    → now + t.wait ≤ later
    → (check_user later (check_user now u).0).1 ≡ ok tt
wait_suffices now later u t past refusal waited =
    let (same, wait) = (check_user-Judges now u).refused t refusal in
    passes later (check_user now u).0 (omega (arith, same, wait))
