-- ===== src/Player/Admitted.antt =====
-- Which whispered commands reach a handler.
use mathlib.Core.Path.{subst}
use cj_store.Prelude.{
  ℕ, ◌≡◌, ◌⊎◌, refl, ap, inl, inr, Bool, true, false, not, ◌&&◌, Option, none, some, String, Result,
  ok, err, arith, if_split,
}
use cj_store.Float.{Float}
use cj_store.Messages.{F64}
use cj_store.RateLimit.{RateLimiter, Throttled, check}
use cj_store.Shop.{Shop, Answer, send_message_to_player, ensure_user_exists}
use cj_store.Course.{SameBooks, whisper-SameBooks}
use cj_store.Commands.{Command, Rejection, validate_username, parse_command}
use cj_store.Commands.Checked.{OnOk, IsChecked, parse_command-IsChecked}
use cj_store.Player.{
  prefixed, name_rate_limit_key, is_operator, needs_operator, whisper_rate_limit_notice, dispatched,
  post_resolve, resolved, pre_resolve, validated, handle_player_command,
}

-- Both gates let the player pass, one after the other.
abbrev pub Passes : String → String → ℕ → ℕ → RateLimiter → Type 0
Passes name uuid now later limiter =
    let first = check (name_rate_limit_key name) now limiter in
    (first.1 ≡ ok tt) × ((check (prefixed "u:" uuid) later first.0).1 ≡ ok tt)

module _ ⦃f : Float F64⦄ (parse_f64 : String → Option F64) (resolve : String → Option String)
    (handle : String → Command → Shop → Answer) where
  -- The command `c` of the user `uuid` reaches its handler.
  abbrev pub Admitted : String → String → ℕ → ℕ → RateLimiter → Shop → Answer → Type 0
  Admitted name command now later limiter sh a =
      (uuid : String) × (c : Command) × (validate_username name ≡ ok tt)
      × (resolve name ≡ some uuid)
      × Passes name uuid now later limiter
      × (parse_command parse_f64 command ≡ ok c)
      × IsChecked c
      × ((needs_operator c ≡ false) ⊎ (is_operator uuid (ensure_user_exists name uuid sh) ≡ true))
      × (a ≡ handle uuid c (ensure_user_exists name uuid sh))

  -- No handler is reached: the books are as they were, or as they were with the player enrolled.
  abbrev pub TurnedAway : String → Shop → Answer → Type 0
  TurnedAway name sh a =
      SameBooks sh a.0 ⊎ ((uuid : String) × SameBooks (ensure_user_exists name uuid sh) a.0)

  notice-SameBooks : (t : Throttled) (sh : Shop) → SameBooks sh (whisper_rate_limit_notice t sh).0
  notice-SameBooks t sh =
      if_split (λ (a : Answer). SameBooks sh a.0) t.should_whisper {x = send_message_to_player sh}
        {y = (sh, ok tt)} (λ _. whisper-SameBooks sh) (λ _. (refl, refl, refl, refl, refl, refl))

  may_pass : (b c : Bool) → (b && not c) ≡ false → (b ≡ false) ⊎ (c ≡ true)
  may_pass true true h = inr refl
  may_pass true false h = ground (arith, h)
  may_pass false c h = inl refl

  module _ (name command : String) (now later : ℕ) (limiter : RateLimiter) (sh : Shop) where
    -- How a whispered command ends.
    abbrev End : Answer → Type 0
    End a = TurnedAway name sh a ⊎ Admitted name command now later limiter sh a

    dispatched-End :
        (uuid : String) (x : Result Command Rejection)
        → validate_username name ≡ ok tt
        → resolve name ≡ some uuid
        → Passes name uuid now later limiter
        → parse_command parse_f64 command ≡ x
        → OnOk IsChecked x
        → End (dispatched parse_f64 resolve handle uuid (ensure_user_exists name uuid sh) x)
    dispatched-End uuid (err e) valid known passes parsed checked =
        inl (inr (uuid, whisper-SameBooks (ensure_user_exists name uuid sh)))
    dispatched-End uuid (ok c) valid known passes parsed checked =
        let start : Shop = ensure_user_exists name uuid sh in
        if_split End (needs_operator c && not (is_operator uuid start))
          {x = send_message_to_player start} {y = handle uuid c start}
          (λ _. inl (inr (uuid, whisper-SameBooks start)))
          (λ h. inr (
            uuid,
            c,
            valid,
            known,
            passes,
            parsed,
            checked,
            may_pass (needs_operator c) (is_operator uuid start) h,
            refl,
          ))

    post_resolve-End :
        (uuid : String) (x : RateLimiter × Result (Unit {0}) Throttled)
        → validate_username name ≡ ok tt
        → resolve name ≡ some uuid
        → (check (name_rate_limit_key name) now limiter).1 ≡ ok tt
        → check (prefixed "u:" uuid) later (check (name_rate_limit_key name) now limiter).0 ≡ x
        → End
            (post_resolve parse_f64 resolve handle uuid command
              (ensure_user_exists name uuid sh)
              x).1
    post_resolve-End uuid (limiter', err t) valid known first second =
        inl (inr (uuid, notice-SameBooks t (ensure_user_exists name uuid sh)))
    post_resolve-End uuid (limiter', ok _) valid known first second =
        dispatched-End uuid (parse_command parse_f64 command) valid known
          (first, ap (λ x. x.1) second) refl (parse_command-IsChecked parse_f64 command)

    resolved-End :
        (x : Option String)
        → validate_username name ≡ ok tt
        → resolve name ≡ x
        → (check (name_rate_limit_key name) now limiter).1 ≡ ok tt
        → End
            (resolved parse_f64 resolve handle name command later
              (check (name_rate_limit_key name) now limiter).0
              sh
              x).1
    resolved-End none valid known first = inl (inl (whisper-SameBooks sh))
    resolved-End (some uuid) valid known first =
        post_resolve-End uuid
          (check (prefixed "u:" uuid) later (check (name_rate_limit_key name) now limiter).0) valid
          known first refl

    pre_resolve-End :
        (x : RateLimiter × Result (Unit {0}) Throttled)
        → validate_username name ≡ ok tt
        → check (name_rate_limit_key name) now limiter ≡ x
        → End (pre_resolve parse_f64 resolve handle name command later sh x).1
    pre_resolve-End (limiter', err t) valid first = inl (inl (notice-SameBooks t sh))
    pre_resolve-End (limiter', ok _) valid first =
        subst
          (λ (l : RateLimiter).
            End (resolved parse_f64 resolve handle name command later l sh (resolve name)).1)
          (ap (λ x. x.0) first) (resolved-End (resolve name) valid refl (ap (λ x. x.1) first))

  -- A whispered command leaves the books as they were, or as they were with the player enrolled; or
  -- it reaches its handler, and then the player's name has the shape of one and was resolved to the
  -- uuid, the limiter has let the name pass and after it the uuid, the text is a command whose
  -- arguments are checked, and a command for operators comes from one. The handlers may be any.
  pub handle_player_command-End :
      (name command : String) (now later : ℕ) (limiter : RateLimiter) (sh : Shop)
      → let a =
          (handle_player_command parse_f64 resolve handle name command now later limiter sh).1 in
        TurnedAway name sh a ⊎ Admitted name command now later limiter sh a
  unfolding handle_player_command
  handle_player_command-End name command now later limiter sh = go (validate_username name) refl
    where
      go :
          (x : Result (Unit {0}) Rejection)
          → validate_username name ≡ x
          → let a = (validated parse_f64 resolve handle name command now later limiter sh x).1 in
            TurnedAway name sh a ⊎ Admitted name command now later limiter sh a
      go (err e) valid = inl (inl (refl, refl, refl, refl, refl, refl))
      go (ok _) valid =
          pre_resolve-End name command now later limiter sh
            (check (name_rate_limit_key name) now limiter) valid refl
