-- ===== src/RateLimit/Spacing.antt =====
-- The messages of one user among those of all, through `check` with its sweeps and its cap.
use cj_store.Prelude.{
  ℕ, ◌+◌, ◌-◌, ◌≤◌, ◌<◌, ◌≡◌, ◌≢◌, refl, sym, ◌∙◌, inl, inr, some, List, [], ◌∷◌, Result, ok, err,
  String, str_eq, eq_iff, Bool-cases, All, if◌then◌else◌,
}
use mathlib.Core.Path.{subst}
use cj_store.RateLimit.{
  RateLimiter, UserRateLimit, Throttled, new, find, check_user, check_entry, check, millis,
  reset_after_ms, base_cooldown_ms,
}
use cj_store.RateLimit.Cooldown.{check_user-Judges, wait_suffices}
use cj_store.RateLimit.Gate.{find-put_self, check_leaves_others}
use cj_store.RateLimit.Next.{
  not_equal, Holds, later-Holds, Held, check-Held, other-Holds, new-Holds,
}

-- The times of the messages of `k` that are accepted, among the messages of all.
pub accepted_of : String → List (String × ℕ) → RateLimiter → List ℕ
accepted_of k [] r = []
accepted_of k ((j, t) ∷ messages) r =
    let (r', answer) = check j t r in
    let rest = accepted_of k messages r' in
    if str_eq j k then (elim answer [ ok _ ↦ t ∷ rest | err _ ↦ rest ]) else rest

abbrev pub Rises : ℕ → List (String × ℕ) → Type 0
Rises now [] = Unit
Rises now ((_, t) ∷ messages) = (now ≤ t) × Rises t messages

-- Each time comes two seconds or more after the one before it, and the first from `next` on.
abbrev pub IsSpaced : ℕ → List ℕ → Type 0
IsSpaced next [] = Unit
IsSpaced next (t ∷ ts) = (next ≤ t) × IsSpaced (t + millis base_cooldown_ms) ts

own-IsSpaced :
    (k : String) (next t : ℕ) (messages : List (String × ℕ))
    (x : RateLimiter × Result (Unit {0}) Throttled)
    → ((n : ℕ) → Holds k n t x.0.limits → IsSpaced n (accepted_of k messages x.0))
    → Held k next t x
    → IsSpaced next
        (elim x.1 [ ok _ ↦ t ∷ accepted_of k messages x.0 | err _ ↦ accepted_of k messages x.0 ])
own-IsSpaced k next t messages (r', ok _) rest (early, held) =
    (early, rest (t + millis base_cooldown_ms) held)
own-IsSpaced k next t messages (r', err _) rest held = rest next held

accepted_of-IsSpaced :
    (k : String) (next now : ℕ) (messages : List (String × ℕ)) (r : RateLimiter)
    → Rises now messages
    → Holds k next now r.limits
    → IsSpaced next (accepted_of k messages r)
unfolding accepted_of
accepted_of-IsSpaced k next now [] r rises h = tt
accepted_of-IsSpaced k next now ((j, t) ∷ messages) r (late, rises) h =
    let h' = later-Holds k next now t r.limits late h in
    elim (Bool-cases (str_eq j k)) [
      | inl e ↦
          rw (accepted_of, e)
            (own-IsSpaced k next t messages (check j t r)
              (λ n. accepted_of-IsSpaced k n t messages (check j t r).0 rises)
              (subst (λ i. Held k next t (check i t r)) (sym ((eq_iff j k).0 e))
                (check-Held k next t r h')))
      | inr e ↦
          rw (accepted_of, e)
            (accepted_of-IsSpaced k next t messages (check j t r).0 rises
              (other-Holds k j next t r (λ s. not_equal j k e (sym s)) h'))
    ]

-- Whatever messages the users send to a new limiter, at times that do not go back, of each user any
-- two messages that it accepts are at least two seconds apart, also when sweeps have dropped the
-- user's record between them.
pub check-IsSpaced :
    (k : String) (messages : List (String × ℕ))
    → Rises 0 messages
    → IsSpaced 0 (accepted_of k messages new)
check-IsSpaced k messages rises = accepted_of-IsSpaced k 0 0 messages new rises (new-Holds k)

-- The limiter after messages.
pub after_all : List (String × ℕ) → RateLimiter → RateLimiter
after_all [] r = r
after_all ((j, t) ∷ messages) r = after_all messages (check j t r).0

others_leave :
    (k : String) (v : UserRateLimit) (messages : List (String × ℕ)) (r : RateLimiter)
    → All (λ m. (k ≢ m.0) × (m.1 - v.last_attempt_time < millis reset_after_ms)) messages
    → find k r.limits ≡ some v
    → find k (after_all messages r).limits ≡ some v
unfolding after_all
others_leave k v [] r h e = e
others_leave k v ((j, t) ∷ messages) r ((ne, fresh), h) e =
    others_leave k v messages (check j t r).0 h (check_leaves_others k j v t r ne fresh e)

-- A user on record goes straight to that record.
check_known :
    (k : String) (now : ℕ) (r : RateLimiter) (u : UserRateLimit)
    → find k r.limits ≡ some u
    → ((check k now r).1 ≡ (check_user now u).1)
      × (find k (check k now r).0.limits ≡ some (check_user now u).0)
unfolding check check_entry
check_known k now r u e = rw (check, e) (refl, find-put_self k (check_user now u).0 r.limits)

-- A user on record whom the limiter refuses, on a clock that has not gone back behind the user's last
-- accepted message, and who sends nothing for as long as the refusal says, is accepted, whatever
-- other users send in between, within 90 seconds of the refusal.
pub check-wait_suffices :
    (k : String) (now later : ℕ) (r : RateLimiter) (u : UserRateLimit) (t : Throttled)
    (messages : List (String × ℕ))
    → find k r.limits ≡ some u
    → u.last_message_time ≤ now
    → (check k now r).1 ≡ err t
    → All (λ m. (k ≢ m.0) × (m.1 - now < millis reset_after_ms)) messages
    → now + t.wait ≤ later
    → (check k later (after_all messages (check k now r).0)).1 ≡ ok tt
check-wait_suffices k now later r u t messages there past refusal others waited =
    let (answer, found) = check_known k now r u there in
    let v = (check_user now u).0 in
    let still =
      others_leave k v messages (check k now r).0
        (subst (λ n. All (λ m. (k ≢ m.0) × (m.1 - n < millis reset_after_ms)) messages)
          (sym (check_user-Judges now u).attempted) others)
        found in
    (check_known k later (after_all messages (check k now r).0) v still).0
    ∙ wait_suffices now later u t past (sym answer ∙ refusal) waited
