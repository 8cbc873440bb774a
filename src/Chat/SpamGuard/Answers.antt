-- ===== src/Chat/SpamGuard/Answers.antt =====
-- What the guard says after an event, and after it has been pruned.
use cj_store.Prelude.{
  ℕ, ◌+◌, ◌<◌, ◌≡◌, refl, ap, ◌∙◌, sym, Bool, true, false, ◌||◌, none, some, List, [], ◌∷◌, ◌++◌,
  String, arith, if_split, if◌then◌else◌, str_eq, ltb, length, Bool-cases, inl, inr, eq_iff,
}
use cj_store.Float.{Float}
use cj_store.Chat.SpamGuard.{
  at_most_sixteen, SenderState, SpamGuard, fresh_sender, is_cooling, drop_aged, retain_young,
  seconds, near_dup_window, is_near_duplicate, record_event, at_sender, record_for, is_suppressed,
}

-- What an event's answer says is how its sender's entry stands.
abbrev Agrees : ℕ → SenderState × Bool → Type 0
Agrees now x = x.1 ≡ is_cooling now x.0.cooldown_until

sender_answer :
    (sender : String) (now : ℕ) (g : SenderState → SenderState × Bool) (guard : SpamGuard)
    → ((s : SenderState) → Agrees now (g s))
    → (at_sender sender g guard).1 ≡ is_suppressed sender now (at_sender sender g guard).0
unfolding at_sender is_suppressed
sender_answer sender now g [] agrees =
    agrees fresh_sender
    ∙ sym (
        ap (λ (b : Bool). if b then is_cooling now (g fresh_sender).0.cooldown_until else false)
          ((eq_iff sender sender).1 refl))
sender_answer sender now g ((name, s) ∷ rows) agrees = elim (Bool-cases (str_eq name sender)) [
  | inl e ↦ rw (e, at_sender, is_suppressed, e) (agrees s)
  | inr e ↦ rw (e, at_sender, is_suppressed, e) (sender_answer sender now g rows agrees)
]

module _ {ℓ} {W : Type ℓ} ⦃f : Float W⦄ (near : W) (msgs window cooldown : ℕ) where
  -- An event is answered by whether its sender is in cooldown after it.
  record_event-Agrees :
      (now : ℕ) (content : List ℕ) (s : SenderState)
      → 0 < cooldown
      → Agrees now (record_event near msgs window cooldown now content s)
  unfolding record_event
  record_event-Agrees now content s some_ =
      let timestamps = drop_aged now (seconds window) (s.timestamps ++ now ∷ []) in
      let young = retain_young now near_dup_window s.last_contents in
      let seen : SenderState = record {
        timestamps = timestamps;
        last_contents = at_most_sixteen (young ++ (now, content) ∷ []);
        cooldown_until = none;
      } in
      let over = ltb msgs (length timestamps) || is_near_duplicate near content young in
      let noted : SenderState × Bool =
        if over
        then (record seen { cooldown_until = some (now + seconds cooldown) }, true)
        else (seen, false) in
      if_split (Agrees now) (is_cooling now s.cooldown_until) {x = (s, true)} {y = noted} sym (λ _.
        if_split (Agrees now) over
          {x = (record seen { cooldown_until = some (now + seconds cooldown) }, true)}
          {y = (seen, false)} (λ _. begins now cooldown some_) (λ _. refl))
    where
      begins : (now cooldown : ℕ) → 0 < cooldown → true ≡ ltb now (now + seconds cooldown)
      begins now cooldown some_ = ground (arith, some_)

  -- `record` answers what `is_suppressed` says of the sender at that moment, if a cooldown lasts at
  -- all.
  record_for-answers :
      (now : ℕ) (sender : String) (content : List ℕ) (guard : SpamGuard)
      → 0 < cooldown
      → let (guard', answer) = record_for near msgs window cooldown now sender content guard in
        answer ≡ is_suppressed sender now guard'
  unfolding record_for
  record_for-answers now sender content guard some_ =
      sender_answer sender now (record_event near msgs window cooldown now content) guard
        (λ s. record_event-Agrees now content s some_)
