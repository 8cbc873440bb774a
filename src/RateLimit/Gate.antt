-- ===== src/RateLimit/Gate.antt =====
-- The limiter as a whole: the size of its table, and the records of other users.
use cj_store.Prelude.{
  ℕ, ◌+◌, ◌-◌, ◌≤◌, ◌<◌, ◌≡◌, ◌≢◌, refl, ◌∙◌, inl, inr, Bool, true, false, not, none, some, List,
  [], ◌∷◌, Result, arith, String, eq_iff, length, retain, max, if_split, Option-cases, leb, ltb,
  leb-false,
}
use cj_store.RateLimit.{
  RateLimiter, UserRateLimit, Throttled, find, put, is_fresh, clamp_stale_threshold,
  cleanup_stale_clamped, sweep_if_full, is_full, refuse_at_cap, check_entry, check,
  max_rate_limit_entries, millis, reset_after_ms, is_due, base_cooldown_ms,
}

length-retain : {A : Type 0} (p : A → Bool) (l : List A) → length (retain p l) ≤ length l
length-retain p [] = omega arith
length-retain p (x ∷ l) = ground (arith, length-retain p l)

length-put :
    (k : String) (u : UserRateLimit) (l : List (String × UserRateLimit))
    → ((find k l ≡ none) → length (put k u l) ≡ length l + 1)
      × ((find k l ≢ none) → length (put k u l) ≡ length l)
unfolding find put
length-put k u [] = (λ _. omega arith, λ h. absurd (h refl))
length-put k u ((j, v) ∷ l) = ground (arith, length-put k u l)

pub find-put_self :
    (k : String) (u : UserRateLimit) (l : List (String × UserRateLimit))
    → find k (put k u l) ≡ some u
unfolding find put
find-put_self k u [] = ground (arith, eq_iff k k)
find-put_self k u ((j, v) ∷ l) = ground (arith, eq_iff k k, eq_iff j k, find-put_self k u l)

pub find-put_ne :
    (j k : String) (u : UserRateLimit) (l : List (String × UserRateLimit))
    → j ≢ k
    → find j (put k u l) ≡ find j l
unfolding find put
find-put_ne j k u [] ne = ground (arith, eq_iff k j)
find-put_ne j k u ((i, v) ∷ l) ne =
    ground (arith, eq_iff k j, eq_iff i k, eq_iff i j, find-put_ne j k u l ne)

-- The sweep keeps whoever was seen within the threshold.
find-retain :
    (j : String) (v : UserRateLimit) (now threshold : ℕ) (l : List (String × UserRateLimit))
    → ltb (now - v.last_attempt_time) threshold ≡ true
    → find j l ≡ some v
    → find j (retain (is_fresh now threshold) l) ≡ some v
unfolding find
find-retain j v now threshold [] fresh e = cc
find-retain j v now threshold ((i, u) ∷ l) fresh e =
    ground (arith, eq_iff i j, find-retain j v now threshold l fresh)

sweep-find :
    (j : String) (v : UserRateLimit) (now : ℕ) (r : RateLimiter)
    → now - v.last_attempt_time < millis reset_after_ms
    → find j r.limits ≡ some v
    → find j (sweep_if_full now r).limits ≡ some v
unfolding sweep_if_full cleanup_stale_clamped clamp_stale_threshold
sweep-find j v now r fresh e =
    if_split (λ (r' : RateLimiter). find j r'.limits ≡ some v)
      (is_due now (millis base_cooldown_ms) r.last_inline_sweep)
      (λ _.
        find-retain j v now (max (millis reset_after_ms) (millis reset_after_ms)) r.limits
          (ground arith) e)
      (λ _. e)

sweep-length : (now : ℕ) (r : RateLimiter) → length (sweep_if_full now r).limits ≤ length r.limits
unfolding sweep_if_full cleanup_stale_clamped clamp_stale_threshold
sweep-length now r =
    if_split (λ (r' : RateLimiter). length r'.limits ≤ length r.limits)
      (is_due now (millis base_cooldown_ms) r.last_inline_sweep) (λ _. length-retain _ r.limits)
      (λ _. omega arith)

check_entry-find :
    (j uuid : String) (v : UserRateLimit) (now : ℕ) (r : RateLimiter)
    → j ≢ uuid
    → find j r.limits ≡ some v
    → find j (check_entry uuid now r).0.limits ≡ some v
unfolding check_entry
check_entry-find j uuid v now r ne e = find-put_ne j uuid _ r.limits ne ∙ e

-- No message of one user, a refused one at the cap of the table included, changes the record of
-- another user who was seen in the last 90 seconds.
pub check_leaves_others :
    (j uuid : String) (v : UserRateLimit) (now : ℕ) (r : RateLimiter)
    → j ≢ uuid
    → now - v.last_attempt_time < millis reset_after_ms
    → find j r.limits ≡ some v
    → find j (check uuid now r).0.limits ≡ some v
unfolding check refuse_at_cap
check_leaves_others j uuid v now r ne fresh e =
    let kept = sweep-find j v now r fresh e in
    let P : RateLimiter × Result (Unit {0}) Throttled → Type 0 = λ x. find j x.0.limits ≡ some v in
    if_split P (not (is_full uuid r)) (λ _. check_entry-find j uuid v now r ne e)
      λ _.
        if_split P (leb max_rate_limit_entries (length (sweep_if_full now r).limits)) (λ _. kept)
          (λ _. check_entry-find j uuid v now (sweep_if_full now r) ne kept)

check_entry-length :
    (uuid : String) (now : ℕ) (r : RateLimiter)
    → length (check_entry uuid now r).0.limits ≤ length r.limits + 1
      × ((find uuid r.limits ≢ none) → length (check_entry uuid now r).0.limits ≡ length r.limits)
unfolding check_entry
check_entry-length uuid now r =
    let (new, known) = length-put uuid _ r.limits in
    (
      elim (Option-cases (find uuid r.limits)) [
        | inl e ↦ omega (arith, new e)
        | inr (u, e) ↦ omega (arith, known (λ n. cc))
      ],
      known,
    )

-- A user that the table is not full for fits into it.
admitted-length :
    (uuid : String) (now : ℕ) (r : RateLimiter)
    → length r.limits ≤ max_rate_limit_entries
    → is_full uuid r ≡ false
    → length (check_entry uuid now r).0.limits ≤ max_rate_limit_entries
admitted-length uuid now r h free =
    let (more, known) = check_entry-length uuid now r in
    elim (Option-cases (find uuid r.limits)) [
      | inl e ↦ omega (
        arith,
        more,
        leb-false max_rate_limit_entries (length r.limits) (ground (arith, e, free)),
      )
      | inr (u, e) ↦ omega (arith, known (λ n. cc))
    ]

-- The table of users never grows past its cap.
pub check_bounded :
    (uuid : String) (now : ℕ) (r : RateLimiter)
    → length r.limits ≤ max_rate_limit_entries
    → length (check uuid now r).0.limits ≤ max_rate_limit_entries
unfolding check refuse_at_cap
check_bounded uuid now r h =
    let swept : RateLimiter = sweep_if_full now r in
    let P : RateLimiter × Result (Unit {0}) Throttled → Type 0 =
      λ x. length x.0.limits ≤ max_rate_limit_entries in
    if_split P (not (is_full uuid r)) (λ free. admitted-length uuid now r h (ground (arith, free)))
      λ _.
        if_split P (leb max_rate_limit_entries (length swept.limits))
          (λ _. omega (arith, sweep-length now r))
          (λ room. omega (
            arith,
            (check_entry-length uuid now swept).0,
            leb-false max_rate_limit_entries (length swept.limits) room,
          ))
