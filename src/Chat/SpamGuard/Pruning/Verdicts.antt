-- ===== src/Chat/SpamGuard/Pruning/Verdicts.antt =====
-- What the guard says of later events does not depend on a pruning.
use mathlib.Core.Path.{subst}
use cj_store.Prelude.{
  ℕ, ◌+◌, ◌-◌, ◌≤◌, ◌≡◌, refl, ap, ap₂, ◌∙◌, sym, Bool, true, false, Option, none, some, List, [],
  ◌∷◌, ◌++◌, String, str_eq, eq_iff, Bool-cases, ◌⊎◌, inl, inr, arith, ltb, leb, length, ◌||◌,
  if◌then◌else◌, All,
}
use cj_store.Float.{Float}
use cj_store.Chat.SpamGuard.{
  SenderState, SpamGuard, fresh_sender, is_cooling, drop_aged, retain_young, seconds,
  near_dup_window, is_near_duplicate, at_most_sixteen, at_sender, record_event, record_for,
  is_suppressed, aged, is_idle, prune,
}
use cj_store.Chat.SpamGuard.Pruning.{
  Call, after, after-IsMap, IsMap, IsAbsent, prune-IsAbsent, still_cooling-later,
  pruned-is_suppressed,
}

-- The state that the guard has of a sender.
entry : String → SpamGuard → SenderState
entry k [] = fresh_sender
entry k ((n, s) ∷ rows) = let rest = entry k rows in if str_eq n k then s else rest

at_sender-entry :
    (sender : String) (g : SenderState → SenderState × Bool) (guard : SpamGuard)
    → ((at_sender sender g guard).1 ≡ (g (entry sender guard)).1)
      × (entry sender (at_sender sender g guard).0 ≡ (g (entry sender guard)).0)
unfolding at_sender entry
at_sender-entry sender g [] = (refl, rw ((eq_iff sender sender).1 refl) refl)
at_sender-entry sender g ((n, s) ∷ rows) = elim (Bool-cases (str_eq n sender)) [
  | inl e ↦ rw (at_sender, entry, e) (refl, rw e refl)
  | inr e ↦ rw (at_sender, entry, e) (let (x, y) = at_sender-entry sender g rows in (x, rw e y))
]

at_sender-entry_other :
    (sender k : String) (g : SenderState → SenderState × Bool) (guard : SpamGuard)
    → str_eq sender k ≡ false
    → entry k (at_sender sender g guard).0 ≡ entry k guard
unfolding at_sender entry
at_sender-entry_other sender k g [] other = rw other refl
at_sender-entry_other sender k g ((n, s) ∷ rows) other = elim (Bool-cases (str_eq n sender)) [
  | inl e ↦
      let apart : str_eq n k ≡ false = ap (λ m. str_eq m k) ((eq_iff n sender).0 e) ∙ other in
      rw (at_sender, e, apart) refl
  | inr e ↦
      rw (at_sender, e)
        (ap (λ (x : SenderState). if str_eq n k then s else x)
          (at_sender-entry_other sender k g rows other))
]

entry-absent : (k : String) (rows : SpamGuard) → IsAbsent k rows → entry k rows ≡ fresh_sender
unfolding entry IsAbsent
entry-absent k [] a = refl
entry-absent k ((n, s) ∷ rows) (e, a) = rw e (entry-absent k rows a)

-- A state of which nothing is left that would count is that of a new sender.
idle-fresh :
    (s : SenderState)
    → is_idle s.cooldown_until s.timestamps s.last_contents ≡ true
    → s ≡ fresh_sender
idle-fresh s e = go s.cooldown_until s.timestamps s.last_contents e
  where
    go :
        (c : Option ℕ) (ts : List ℕ) (cs : List (ℕ × List ℕ))
        → is_idle c ts cs ≡ true
        → record { timestamps = ts; last_contents = cs; cooldown_until = c } ≡ fresh_sender
    go none [] [] e = refl
    go (some _) ts cs e = absurd (cc e)
    go none (_ ∷ _) cs e = absurd (cc e)
    go none [] (_ ∷ _) e = absurd (cc e)

prune-entry :
    (k : String) (now : ℕ) (guard : SpamGuard)
    → IsMap guard
    → entry k (prune now guard) ≡ aged now (entry k guard)
unfolding entry prune IsMap drop_aged retain_young
prune-entry k now [] m = refl
prune-entry k now ((n, s) ∷ rows) (a, m) =
    let s' = aged now s in
    elim (Bool-cases (is_idle s'.cooldown_until s'.timestamps s'.last_contents)) [
      | inl e ↦ elim (Bool-cases (str_eq n k)) [
        | inl same ↦
            rw (prune, e, entry, same)
              (entry-absent k (prune now rows)
                  (prune-IsAbsent now k rows (subst (λ x. IsAbsent x rows) ((eq_iff n k).0 same) a))
                ∙ sym (idle-fresh s' e))
        | inr other ↦ rw (prune, e, entry, other) (prune-entry k now rows m)
      ]
      | inr e ↦ elim (Bool-cases (str_eq n k)) [
        | inl same ↦ rw (prune, e, entry, same) refl
        | inr other ↦ rw (prune, e, entry, other) (prune-entry k now rows m)
      ]
    ]

-- What a pruning drops from the front, an event that comes later drops too.
drop_aged-again :
    (now later max_age window : ℕ) (ts new : List ℕ)
    → now ≤ later
    → window ≤ max_age
    → drop_aged later window (drop_aged now max_age ts ++ new) ≡ drop_aged later window (ts ++ new)
unfolding drop_aged
drop_aged-again now later max_age window [] new h k = refl
drop_aged-again now later max_age window (t ∷ ts) new h k =
    elim (Bool-cases (ltb max_age (now - t))) [
      | inl old ↦
          let older : ltb window (later - t) ≡ true = ground (arith, old, h, k) in
          rw (drop_aged, old, older) (drop_aged-again now later max_age window ts new h k)
      | inr young ↦ rw (drop_aged, young) refl
    ]

retain_young-again :
    (now later max_age : ℕ) (cs : List (ℕ × List ℕ))
    → now ≤ later
    → retain_young later max_age (retain_young now max_age cs) ≡ retain_young later max_age cs
unfolding retain_young
retain_young-again now later max_age [] h = refl
retain_young-again now later max_age ((t, c) ∷ cs) h = elim (Bool-cases (leb (now - t) max_age)) [
  | inl young ↦ elim (Bool-cases (leb (later - t) max_age)) [
    | inl still ↦
        rw (retain_young, young, still)
          (ap (λ xs. (t, c) ∷ xs) (retain_young-again now later max_age cs h))
    | inr past ↦ rw (retain_young, young, past) (retain_young-again now later max_age cs h)
  ]
  | inr old ↦
      let older : leb (later - t) max_age ≡ false = ground (arith, old, h) in
      rw (retain_young, old, older) (retain_young-again now later max_age cs h)
]

module _ {ℓ} {W : Type ℓ} ⦃f : Float W⦄ (near : W) (msgs window cooldown : ℕ) where
  abbrev judged : ℕ → List ℕ → SenderState → SenderState × Bool
  judged = record_event near msgs window cooldown

  -- A state is as it was, or as a pruning at `now` makes it.
  abbrev Similar : ℕ → SenderState → SenderState → Type 0
  Similar now s s' = (s' ≡ s) ⊎ (s' ≡ aged now s)

  -- What an event makes of a state that is not in cooldown, by what of it is young.
  abbrev noted : ℕ → List ℕ → List ℕ → List (ℕ × List ℕ) → SenderState × Bool
  noted now content timestamps young =
      let seen : SenderState = record {
        timestamps = timestamps;
        last_contents = at_most_sixteen (young ++ (now, content) ∷ []);
        cooldown_until = none;
      } in
      if ltb msgs (length timestamps) || is_near_duplicate near content young
      then (record seen { cooldown_until = some (now + seconds cooldown) }, true)
      else (seen, false)

  judged-cooling :
      (now : ℕ) (content : List ℕ) (s : SenderState)
      → is_cooling now s.cooldown_until ≡ true
      → judged now content s ≡ (s, true)
  unfolding record_event
  judged-cooling now content s e = rw e refl

  judged-free :
      (now : ℕ) (content : List ℕ) (s : SenderState)
      → is_cooling now s.cooldown_until ≡ false
      → judged now content s
        ≡ noted now content
            (drop_aged now (seconds window) (s.timestamps ++ now ∷ []))
            (retain_young now near_dup_window s.last_contents)
  unfolding record_event
  judged-free now content s e = rw e refl

  judged-aged :
      (now later : ℕ) (content : List ℕ) (s : SenderState)
      → now ≤ later
      → window ≤ 60
      → ((judged later content (aged now s)).1 ≡ (judged later content s).1)
        × Similar now (judged later content s).0 (judged later content (aged now s)).0
  judged-aged now later content s h w =
      let cools = still_cooling-later now later s.cooldown_until h in
      elim (Bool-cases (is_cooling later s.cooldown_until)) [
        | inl e ↦
            let x = judged-cooling later content s e in
            let y = judged-cooling later content (aged now s) (cools ∙ e) in
            (
              ap (λ z. z.1) y ∙ sym (ap (λ z. z.1) x),
              inr (ap (λ z. z.0) y ∙ sym (ap (λ z. aged now z.0) x)),
            )
        | inr e ↦
            let x = judged-free later content s e in
            let y = judged-free later content (aged now s) (cools ∙ e) in
            let same =
              y
              ∙ ap₂ (noted later content)
                  (drop_aged-again now later near_dup_window (seconds window) s.timestamps
                    (later ∷ []) h (omega (arith, w)))
                  (retain_young-again now later near_dup_window s.last_contents h)
              ∙ sym x in
            (ap (λ z. z.1) same, inl (ap (λ z. z.0) same))
      ]

  judged-Similar :
      (now later : ℕ) (content : List ℕ) (s s' : SenderState)
      → now ≤ later
      → window ≤ 60
      → Similar now s s'
      → ((judged later content s').1 ≡ (judged later content s).1)
        × Similar now (judged later content s).0 (judged later content s').0
  judged-Similar now later content s s' h w (inl e) =
      (ap (λ z. (judged later content z).1) e, inl (ap (λ z. (judged later content z).0) e))
  judged-Similar now later content s s' h w (inr e) =
      subst
        (λ z.
          ((judged later content z).1 ≡ (judged later content s).1)
          × Similar now (judged later content s).0 (judged later content z).0)
        (sym e) (judged-aged now later content s h w)

  -- What `record` says of each of a sequence of events: its time, its sender and its text.
  pub verdicts : List (ℕ × String × List ℕ) → SpamGuard → List Bool
  unfolding record_for
  verdicts [] guard = []
  verdicts ((now, sender, content) ∷ events) guard =
      let (guard', answer) = record_for near msgs window cooldown now sender content guard in
      answer ∷ verdicts events guard'

  AreSimilar : ℕ → SpamGuard → SpamGuard → Type 0
  AreSimilar now guard guard' = (k : String) → Similar now (entry k guard) (entry k guard')

  record_for-AreSimilar :
      (now later : ℕ) (sender : String) (content : List ℕ) (guard guard' : SpamGuard)
      → now ≤ later
      → window ≤ 60
      → AreSimilar now guard guard'
      → let x = at_sender sender (judged later content) guard in
        let x' = at_sender sender (judged later content) guard' in
        (x'.1 ≡ x.1) × AreSimilar now x.0 x'.0
  unfolding AreSimilar
  record_for-AreSimilar now later sender content guard guard' h w similar =
      let g = judged later content in
      let (answer, mine) = at_sender-entry sender g guard in
      let (answer', mine') = at_sender-entry sender g guard' in
      let (same, more) =
        judged-Similar now later content (entry sender guard) (entry sender guard') h w
          (similar sender) in
      (
        answer' ∙ same ∙ sym answer,
        λ k. elim (Bool-cases (str_eq sender k)) [
          | inl e ↦
              subst
                (λ j.
                  Similar now (entry j (at_sender sender g guard).0)
                    (entry j (at_sender sender g guard').0))
                ((eq_iff sender k).0 e) (rw (mine, mine') more)
          | inr e ↦
              rw
                (
                  at_sender-entry_other sender k g guard e,
                  at_sender-entry_other sender k g guard' e,
                )
                (similar k)
        ],
      )

  verdicts-AreSimilar :
      (now : ℕ) (events : List (ℕ × String × List ℕ)) (guard guard' : SpamGuard)
      → window ≤ 60
      → All (λ e. now ≤ e.0) events
      → AreSimilar now guard guard'
      → verdicts events guard' ≡ verdicts events guard
  unfolding verdicts record_for
  verdicts-AreSimilar now [] guard guard' w late similar = refl
  verdicts-AreSimilar now ((t, sender, content) ∷ events) guard guard' w (h, late) similar =
      let (same, more) = record_for-AreSimilar now t sender content guard guard' h w similar in
      ap₂ ◌∷◌ same (verdicts-AreSimilar now events _ _ w late more)

  -- With a window of at most 60 seconds, after any events and prunings from an empty guard, one more
  -- pruning changes nothing of what follows: neither what `record` says of any events from then on,
  -- of any senders, one after another, nor for any sender whether a message is ignored then or later.
  pub prune-verdicts :
      (calls : List Call) (now : ℕ) (events : List (ℕ × String × List ℕ))
      → window ≤ 60
      → All (λ e. now ≤ e.0) events
      → let guard = after near msgs window cooldown calls [] in
        (verdicts events (prune now guard) ≡ verdicts events guard)
        × ((later : ℕ) (sender : String)
            → now ≤ later
            → is_suppressed sender later (prune now guard) ≡ is_suppressed sender later guard)
  unfolding AreSimilar IsMap
  prune-verdicts calls now events w late =
      let guard : SpamGuard = after near msgs window cooldown calls [] in
      let unique : IsMap guard = after-IsMap near msgs window cooldown calls [] tt in
      (
        verdicts-AreSimilar now events guard (prune now guard) w late
            (λ k. inr (prune-entry k now guard unique)),
        λ later sender h. pruned-is_suppressed now later sender guard h unique,
      )
