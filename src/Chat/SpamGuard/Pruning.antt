-- ===== src/Chat/SpamGuard/Pruning.antt =====
-- What pruning the guard leaves as it was. A hash map has a key once at most: `IsMap`.
pub mod Verdicts
use mathlib.Core.Path.{subst}
use cj_store.Prelude.{
  ℕ, arith, ◌≤◌, ◌≡◌, refl, ◌∙◌, sym, Bool, true, false, Option, none, some, List, [], ◌∷◌, String,
  str_eq, eq_iff, Bool-cases, inl, inr,
}
use cj_store.Float.{Float}
use cj_store.Chat.SpamGuard.{
  SenderState, SpamGuard, is_cooling, at_sender, record_event, record_for, is_suppressed,
  still_cooling, aged, is_idle, prune,
}

-- No cooldown that matters later is lost by pruning now.
pub still_cooling-later :
    (now later : ℕ) (c : Option ℕ)
    → now ≤ later
    → is_cooling later (still_cooling now c) ≡ is_cooling later c
still_cooling-later now later none h = refl
still_cooling-later now later (some until) h = ground (arith, h)

idle-cools_not :
    (later : ℕ) (c : Option ℕ) (ts : List ℕ) (cs : List (ℕ × List ℕ))
    → is_idle c ts cs ≡ true
    → is_cooling later c ≡ false
idle-cools_not later (some until) ts cs h = cc h
idle-cools_not later none ts cs h = refl

pub IsAbsent : String → SpamGuard → Type 0
IsAbsent name [] = Unit {0}
IsAbsent name ((other, _) ∷ rows) = (str_eq other name ≡ false) × IsAbsent name rows

pub IsMap : SpamGuard → Type 0
unfolding IsAbsent
IsMap [] = Unit {0}
IsMap ((name, _) ∷ rows) = IsAbsent name rows × IsMap rows

absent-quiet :
    (sender : String) (t : ℕ) (rows : SpamGuard)
    → IsAbsent sender rows
    → is_suppressed sender t rows ≡ false
unfolding IsAbsent is_suppressed
absent-quiet sender t [] a = refl
absent-quiet sender t ((name, s) ∷ rows) (k, a) = rw k (absent-quiet sender t rows a)

abbrev idle_after : ℕ → SenderState → Bool
idle_after now s = let s' = aged now s in is_idle s'.cooldown_until s'.timestamps s'.last_contents

pub prune-IsAbsent :
    (now : ℕ) (name : String) (rows : SpamGuard)
    → IsAbsent name rows
    → IsAbsent name (prune now rows)
unfolding IsAbsent prune
prune-IsAbsent now name [] a = tt
prune-IsAbsent now name ((other, s) ∷ rows) (k, a) = elim (Bool-cases (idle_after now s)) [
  | inl e ↦ rw (prune, e) (prune-IsAbsent now name rows a)
  | inr e ↦ rw (prune, e) (k, prune-IsAbsent now name rows a)
]

pub prune-IsMap : (now : ℕ) (guard : SpamGuard) → IsMap guard → IsMap (prune now guard)
unfolding IsMap prune
prune-IsMap now [] m = tt
prune-IsMap now ((name, s) ∷ rows) (a, m) = elim (Bool-cases (idle_after now s)) [
  | inl e ↦ rw (prune, e) (prune-IsMap now rows m)
  | inr e ↦ rw (prune, e) (prune-IsAbsent now name rows a, prune-IsMap now rows m)
]

pub pruned-is_suppressed :
    (now later : ℕ) (sender : String) (guard : SpamGuard)
    → now ≤ later
    → IsMap guard
    → is_suppressed sender later (prune now guard) ≡ is_suppressed sender later guard
unfolding IsMap is_suppressed prune
pruned-is_suppressed now later sender [] h m = refl
pruned-is_suppressed now later sender ((name, s) ∷ rows) h (a, m) =
    let cools = still_cooling-later now later s.cooldown_until h in
    let rest = pruned-is_suppressed now later sender rows h m in
    elim (Bool-cases (idle_after now s)) [
      | inl e ↦ elim (Bool-cases (str_eq name sender)) [
        | inl k ↦
            let quiet =
              prune-IsAbsent now sender rows
                (subst (λ n. IsAbsent n rows) ((eq_iff name sender).0 k) a) in
            rw (prune, e, is_suppressed, k)
              (absent-quiet sender later (prune now rows) quiet
                ∙ sym (
                    idle-cools_not later (still_cooling now s.cooldown_until)
                      (aged now s).timestamps (aged now s).last_contents e)
                ∙ cools)
        | inr k ↦ rw (prune, e, is_suppressed, k) rest
      ]
      | inr e ↦ elim (Bool-cases (str_eq name sender)) [
        | inl k ↦ rw (prune, e, is_suppressed, k) cools
        | inr k ↦ rw (prune, e, is_suppressed, k) rest
      ]
    ]

str_eq-turned : (a b : String) → str_eq a b ≡ false → str_eq b a ≡ false
str_eq-turned a b e = elim (Bool-cases (str_eq b a)) [
  | inl k ↦ cc (e, (eq_iff a b).1 (sym ((eq_iff b a).0 k)))
  | inr k ↦ k
]

at_sender-IsAbsent :
    (sender name : String) (g : SenderState → SenderState × Bool) (rows : SpamGuard)
    → str_eq sender name ≡ false
    → IsAbsent name rows
    → IsAbsent name (at_sender sender g rows).0
unfolding IsAbsent at_sender
at_sender-IsAbsent sender name g [] other a = (other, tt)
at_sender-IsAbsent sender name g ((n, s) ∷ rows) other (k, a) =
    elim (Bool-cases (str_eq n sender)) [
      | inl e ↦ rw (at_sender, e) (k, a)
      | inr e ↦ rw (at_sender, e) (k, at_sender-IsAbsent sender name g rows other a)
    ]

at_sender-IsMap :
    (sender : String) (g : SenderState → SenderState × Bool) (guard : SpamGuard)
    → IsMap guard
    → IsMap (at_sender sender g guard).0
unfolding IsMap at_sender IsAbsent
at_sender-IsMap sender g [] m = (tt, tt)
at_sender-IsMap sender g ((n, s) ∷ rows) (a, m) = elim (Bool-cases (str_eq n sender)) [
  | inl e ↦ rw (at_sender, e) (a, m)
  | inr e ↦
      rw (at_sender, e)
        (
          at_sender-IsAbsent sender n g rows (str_eq-turned n sender e) a,
          at_sender-IsMap sender g rows m,
        )
]

-- One after another, events are recorded and the guard is pruned.
pub data Call : Type 0 where
  recorded : ℕ → String → List ℕ → Call
  pruned : ℕ → Call

module _ {ℓ} {W : Type ℓ} ⦃f : Float W⦄ (near : W) (msgs window cooldown : ℕ) where
  pub after : List Call → SpamGuard → SpamGuard
  unfolding record_for prune
  after [] guard = guard
  after (recorded now sender content ∷ calls) guard =
      after calls (record_for near msgs window cooldown now sender content guard).0
  after (pruned now ∷ calls) guard = after calls (prune now guard)

  pub after-IsMap :
      (calls : List Call) (guard : SpamGuard) → IsMap guard → IsMap (after calls guard)
  unfolding after record_for
  after-IsMap [] guard m = m
  after-IsMap (recorded now sender content ∷ calls) guard m =
      after-IsMap calls (record_for near msgs window cooldown now sender content guard).0
        (at_sender-IsMap sender (record_event near msgs window cooldown now content) guard m)
  after-IsMap (pruned now ∷ calls) guard m =
      after-IsMap calls (prune now guard) (prune-IsMap now guard m)
