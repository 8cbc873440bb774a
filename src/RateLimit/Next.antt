-- ===== src/RateLimit/Next.antt =====
-- When a user's next message can be accepted, as the limiter's table has it.
use cj_store.Prelude.{
  ℕ, ◌+◌, ◌-◌, ◌≤◌, ◌≡◌, ◌≢◌, ◌⊎◌, refl, sym, ◌∙◌, inl, inr, Bool, false, not, none, some, List, [],
  ◌∷◌, Result, ok, err, arith, String, str_eq, eq_iff, Bool-cases, Option-cases, retain, if_split,
  leb, ltb, length, max,
}
use mathlib.Core.Option.{some-injective}
use mathlib.Core.Path.{subst}
use cj_store.RateLimit.{
  RateLimiter, UserRateLimit, Throttled, new, find, put, is_fresh, is_due, first_seen, check_user,
  calculate_cooldown, max_cooldown_ms, clamp_stale_threshold, cleanup_stale_clamped, sweep_if_full,
  is_full, refuse_at_cap, check_entry, check, max_rate_limit_entries, millis, reset_after_ms,
  base_cooldown_ms,
}
use cj_store.RateLimit.Cooldown.{Judges, check_user-Judges, cooldown_bounds, passes}
use cj_store.RateLimit.Gate.{find-put_self, find-put_ne}

-- A key stands once at most.
pub IsUnique : List (String × UserRateLimit) → Type 0
IsUnique [] = Unit {0}
IsUnique ((j, _) ∷ l) = (find j l ≡ none) × IsUnique l

pub not_equal : (j k : String) → str_eq j k ≡ false → j ≢ k
not_equal j k e h = cc (e, (eq_iff j k).1 h)

put-IsUnique :
    (k : String) (u : UserRateLimit) (l : List (String × UserRateLimit))
    → IsUnique l
    → IsUnique (put k u l)
unfolding IsUnique put find
put-IsUnique k u [] h = (refl, tt)
put-IsUnique k u ((j, v) ∷ l) (a, h) = elim (Bool-cases (str_eq j k)) [
  | inl e ↦ rw (put, e) (subst (λ i. find i l ≡ none) ((eq_iff j k).0 e) a, h)
  | inr e ↦ rw (put, e) (find-put_ne j k u l (not_equal j k e) ∙ a, put-IsUnique k u l h)
]

abbrev fresh_at : ℕ → String × UserRateLimit → Bool
fresh_at now = is_fresh now (max (millis reset_after_ms) (millis reset_after_ms))

retained_none :
    (k : String) (now : ℕ) (l : List (String × UserRateLimit))
    → find k l ≡ none
    → find k (retain (fresh_at now) l) ≡ none
unfolding find
retained_none k now [] h = refl
retained_none k now ((j, v) ∷ l) h = elim (Bool-cases (str_eq j k)) [
  | inl e ↦ absurd (cc (rw (find, e) at h))
  | inr e ↦ ground (arith, e, retained_none k now l (rw (find, e) at h))
]

retain-IsUnique :
    (now : ℕ) (l : List (String × UserRateLimit)) → IsUnique l → IsUnique (retain (fresh_at now) l)
unfolding IsUnique
retain-IsUnique now [] h = tt
retain-IsUnique now ((j, v) ∷ l) (a, h) = elim (Bool-cases (fresh_at now (j, v))) [
  | inl e ↦ rw (retain, e) (retained_none j now l a, retain-IsUnique now l h)
  | inr e ↦ rw (retain, e) (retain-IsUnique now l h)
]

stale :
    (now : ℕ) (w : UserRateLimit)
    → ltb (now - w.last_attempt_time) (max (millis reset_after_ms) (millis reset_after_ms)) ≡ false
    → w.last_attempt_time + millis reset_after_ms ≤ now
stale now w h = ground (arith, h)

-- A record stays, or it has not been used for 90 seconds.
retained_some :
    (k : String) (v : UserRateLimit) (now : ℕ) (l : List (String × UserRateLimit))
    → IsUnique l
    → find k l ≡ some v
    → (find k (retain (fresh_at now) l) ≡ some v)
      ⊎ ((find k (retain (fresh_at now) l) ≡ none)
          × (v.last_attempt_time + millis reset_after_ms ≤ now))
unfolding IsUnique find
retained_some k v now [] u h = absurd (cc h)
retained_some k v now ((j, w) ∷ l) (a, u) h = elim (Bool-cases (str_eq j k)) [
  | inl e ↦
      let found : some w ≡ some v = rw (find, e) at h in
      elim (Bool-cases (fresh_at now (j, w))) [
        | inl f ↦ rw (retain, f) (inl (rw (find, e) found))
        | inr f ↦
            rw (retain, f)
              (inr (
                retained_none k now l (subst (λ i. find i l ≡ none) ((eq_iff j k).0 e) a),
                subst (λ (x : UserRateLimit). x.last_attempt_time + millis reset_after_ms ≤ now)
                    (some-injective w v found) (stale now w f),
              ))
      ]
  | inr e ↦ elim (Bool-cases (fresh_at now (j, w))) [
    | inl f ↦ rw (retain, f, find, e) (retained_some k v now l u (rw (find, e) at h))
    | inr f ↦ rw (retain, f) (retained_some k v now l u (rw (find, e) at h))
  ]
]

-- The next message can be accepted from `next` on, as a record has it at the time `now`.
abbrev Fits : ℕ → ℕ → UserRateLimit → Type 0
Fits next now u =
    (next ≤ u.last_message_time + millis base_cooldown_ms)
    × (u.last_message_time ≤ u.last_attempt_time)
    × (u.last_attempt_time ≤ now)

-- What a message at `now` does to a record, by the answer.
abbrev Fitted : ℕ → ℕ → UserRateLimit × Result (Unit {0}) Throttled → Type 0
Fitted next now (u, ok _) = (next ≤ now) × Fits (now + millis base_cooldown_ms) now u
Fitted next now (u, err _) = Fits next now u

Judges-Fitted :
    (next before now : ℕ) (u u' : UserRateLimit) (answer : Result (Unit {0}) Throttled)
    → before ≤ now
    → Fits next before u
    → Judges now u u' answer
    → Fitted next now (u', answer)
Judges-Fitted next before now u u' (ok _) late (a, b, c) j =
    let (gap, here) = j.accepted refl in
    (
      omega (arith, a, gap),
      (omega (arith, here), omega (arith, here, j.attempted), omega (arith, j.attempted)),
    )
Judges-Fitted next before now u u' (err t) late (a, b, c) j =
    let (same, _) = j.refused t refl in
    (
      omega (arith, a, same),
      omega (arith, same, j.attempted, b, c, late),
      omega (arith, j.attempted),
    )

new-Fitted :
    (next now : ℕ) (u u' : UserRateLimit) (answer : Result (Unit {0}) Throttled)
    → next ≤ now
    → (answer ≡ ok tt) ⊎ (u.last_message_time ≡ now)
    → Judges now u u' answer
    → Fitted next now (u', answer)
new-Fitted next now u u' (ok _) h _ j =
    let (_, here) = j.accepted refl in
    (h, (omega (arith, here), omega (arith, here, j.attempted), omega (arith, j.attempted)))
new-Fitted next now u u' (err t) h (inl e) j = absurd (cc e)
new-Fitted next now u u' (err t) h (inr e) j =
    let (same, _) = j.refused t refl in
    (omega (arith, h, e, same), omega (arith, e, same, j.attempted), omega (arith, j.attempted))

dated_back :
    (now : ℕ)
    → (calculate_cooldown (first_seen now).consecutive_violations
        ≤ now - (first_seen now).last_message_time)
      ⊎ ((first_seen now).last_message_time ≡ now)
unfolding first_seen
dated_back now = elim (Bool-cases (leb (millis (max_cooldown_ms + 1)) now)) [
  | inl e ↦ rw e (inl (ground (arith, e, cooldown_bounds 0)))
  | inr e ↦ rw e (inr refl)
]

first_seen-Fitted : (next now : ℕ) → next ≤ now → Fitted next now (check_user now (first_seen now))
first_seen-Fitted next now h =
    let x = check_user now (first_seen now) in
    new-Fitted next now (first_seen now) x.0 x.1 h
      (elim (dated_back now) [
        | inl back ↦ inl (passes now (first_seen now) back)
        | inr here ↦ inr here
      ])
      (check_user-Judges now (first_seen now))

-- The next message of `k` can be accepted from `next` on, as the limiter has it at `now`.
pub Holds : String → ℕ → ℕ → List (String × UserRateLimit) → Type 0
Holds k next now l =
    IsUnique l
    × ((u : UserRateLimit) → find k l ≡ some u → Fits next now u)
    × (find k l ≡ none → next ≤ now)

pub later-Holds :
    (k : String) (next now later : ℕ) (l : List (String × UserRateLimit))
    → now ≤ later
    → Holds k next now l
    → Holds k next later l
unfolding Holds
later-Holds k next now later l h (u, f, n) =
    (u, λ v e. let (a, b, c) = f v e in (a, b, omega (arith, c, h)), λ e. omega (arith, n e, h))

sweep-Holds :
    (k : String) (next now : ℕ) (r : RateLimiter)
    → Holds k next now r.limits
    → Holds k next now (sweep_if_full now r).limits
unfolding Holds sweep_if_full cleanup_stale_clamped clamp_stale_threshold
sweep-Holds k next now r (u, f, n) =
    if_split (λ (r' : RateLimiter). Holds k next now r'.limits)
      (is_due now (millis base_cooldown_ms) r.last_inline_sweep)
      (λ _. (
        retain-IsUnique now r.limits u,
        λ v e. elim (Option-cases (find k r.limits)) [
          | inl gone ↦ absurd (cc (sym e ∙ retained_none k now r.limits gone))
          | inr (w, there) ↦ elim (retained_some k w now r.limits u there) [
            | inl kept ↦ f v (there ∙ sym kept ∙ e)
            | inr (gone, _) ↦ absurd (cc (sym e ∙ gone))
          ]
        ],
        λ e. elim (Option-cases (find k r.limits)) [
          | inl gone ↦ n gone
          | inr (w, there) ↦ elim (retained_some k w now r.limits u there) [
            | inl kept ↦ absurd (cc (sym e ∙ kept))
            | inr (_, old) ↦ let (a, b, _) = f w there in omega (arith, a, b, old)
          ]
        ],
      ))
      (λ _. (u, f, n))

-- What a message of `k` does to the limiter, by the answer.
abbrev pub Held : String → ℕ → ℕ → RateLimiter × Result (Unit {0}) Throttled → Type 0
Held k next now (r, ok _) = (next ≤ now) × Holds k (now + millis base_cooldown_ms) now r.limits
Held k next now (r, err _) = Holds k next now r.limits

put-Holds :
    (k : String) (next now : ℕ) (u : UserRateLimit) (l : List (String × UserRateLimit))
    → IsUnique l
    → Fits next now u
    → Holds k next now (put k u l)
unfolding Holds
put-Holds k next now u l unique fits = (
  put-IsUnique k u l unique,
  λ v e. subst (Fits next now) (some-injective u v (sym (find-put_self k u l) ∙ e)) fits,
  λ e. absurd (cc (sym e ∙ find-put_self k u l)),
)

entered-Held :
    (k : String) (next now : ℕ) (r : RateLimiter) (x : UserRateLimit × Result (Unit {0}) Throttled)
    → IsUnique r.limits
    → Fitted next now x
    → Held k next now (record r { limits = put k x.0 r.limits }, x.1)
entered-Held k next now r (u, ok _) unique (h, fits) = (h, put-Holds k _ now u r.limits unique fits)
entered-Held k next now r (u, err _) unique fits = put-Holds k next now u r.limits unique fits

check_entry-Held :
    (k : String) (next now : ℕ) (r : RateLimiter)
    → Holds k next now r.limits
    → Held k next now (check_entry k now r)
unfolding check_entry Holds
check_entry-Held k next now r (unique, f, n) = elim (Option-cases (find k r.limits)) [
  | inl e ↦
      rw (check_entry, e)
        (entered-Held k next now r (check_user now (first_seen now)) unique
          (first_seen-Fitted next now (n e)))
  | inr (u, e) ↦
      let x = check_user now u in
      rw (check_entry, e)
        (entered-Held k next now r x unique
          (Judges-Fitted next now now u x.0 x.1 (omega arith) (f u e) (check_user-Judges now u)))
]

-- A message of another user.
other_entry-Holds :
    (k j : String) (next now : ℕ) (r : RateLimiter)
    → k ≢ j
    → Holds k next now r.limits
    → Holds k next now (check_entry j now r).0.limits
unfolding Holds check_entry
other_entry-Holds k j next now r ne (unique, f, n) =
    let same = λ (u : UserRateLimit). find-put_ne k j u r.limits ne in
    (put-IsUnique j _ r.limits unique, λ v e. f v (sym (same _) ∙ e), λ e. n (sym (same _) ∙ e))

module _ (P : RateLimiter × Result (Unit {0}) Throttled → Type 0) (j : String) (now : ℕ)
    (r : RateLimiter) where
  -- The ways of a message through `check`.
  check-ways :
      P (check_entry j now r)
      → P (refuse_at_cap now (sweep_if_full now r))
      → P (check_entry j now (sweep_if_full now r))
      → P (check j now r)
  unfolding check
  check-ways known refused swept =
      if_split P (not (is_full j r)) (λ _. known)
        (λ _.
          if_split P (leb max_rate_limit_entries (length (sweep_if_full now r).limits))
            (λ _. refused) (λ _. swept))

pub check-Held :
    (k : String) (next now : ℕ) (r : RateLimiter)
    → Holds k next now r.limits
    → Held k next now (check k now r)
unfolding refuse_at_cap
check-Held k next now r h =
    let h' = sweep-Holds k next now r h in
    check-ways (Held k next now) k now r (check_entry-Held k next now r h) h'
      (check_entry-Held k next now (sweep_if_full now r) h')

pub other-Holds :
    (k j : String) (next now : ℕ) (r : RateLimiter)
    → k ≢ j
    → Holds k next now r.limits
    → Holds k next now (check j now r).0.limits
unfolding refuse_at_cap
other-Holds k j next now r ne h =
    let h' = sweep-Holds k next now r h in
    check-ways (λ x. Holds k next now x.0.limits) j now r (other_entry-Holds k j next now r ne h) h'
      (other_entry-Holds k j next now (sweep_if_full now r) ne h')

pub new-Holds : (k : String) → Holds k 0 0 new.limits
unfolding Holds IsUnique new find
new-Holds k = (tt, λ u e. absurd (cc e), λ _. omega arith)
