-- ===== src/Chat/SpamGuard.antt =====
-- src/chat/conversation.rs: `SpamGuard`, which counts what a sender writes in a window of time and
-- ignores a sender for a while. The hash map is an association list, a text the list of its bytes,
-- and time a number of nanoseconds, on a clock that does not go back. `near` is the bound 0.9.
pub mod Answers
pub mod Pruning
use cj_store.Prelude.{
  ℕ, ◌+◌, ◌*◌, ◌-◌, Bool, true, false, not, ◌||◌, Option, none, some, List, [], ◌∷◌, ◌++◌, String,
  if◌then◌else◌, str_eq, ltb, leb, ◌==◌, length, max, drop,
}
use cj_store.Prelude.Int.{pos}
use cj_store.Float.{Float}
use cj_store.Chat.Distance.{levenshtein}

pub record SenderState : Type 0 where
  pub timestamps : List ℕ
  pub last_contents : List (ℕ × List ℕ)
  pub cooldown_until : Option ℕ

abbrev pub fresh_sender : SenderState
fresh_sender = record { timestamps = []; last_contents = []; cooldown_until = none }

abbrev pub SpamGuard : Type 0
SpamGuard = List (String × SenderState)

abbrev pub is_cooling : ℕ → Option ℕ → Bool
is_cooling now none = false
is_cooling now (some until) = ltb now until

-- Aged entries go from the front, up to the first that is young enough.
unfoldable pub drop_aged : ℕ → ℕ → List ℕ → List ℕ
drop_aged now max_age [] = []
drop_aged now max_age (t ∷ ts) =
    let rest = drop_aged now max_age ts in if ltb max_age (now - t) then rest else t ∷ ts

unfoldable pub retain_young : ℕ → ℕ → List (ℕ × List ℕ) → List (ℕ × List ℕ)
retain_young now max_age [] = []
retain_young now max_age ((t, content) ∷ cs) =
    let rest = retain_young now max_age cs in
    if leb (now - t) max_age then (t, content) ∷ rest else rest

-- `Duration::from_secs`
abbrev pub seconds : ℕ → ℕ
seconds n = n * 1000000000

abbrev pub near_dup_window : ℕ
near_dup_window = seconds 60

abbrev pub at_most_sixteen : List (ℕ × List ℕ) → List (ℕ × List ℕ)
at_most_sixteen cs = if ltb 16 (length cs) then drop 1 cs else cs

-- An entry is made for a sender who has none.
unfoldable pub at_sender :
    String → (SenderState → SenderState × Bool) → SpamGuard → SpamGuard × Bool
at_sender sender g [] = let (s, answer) = g fresh_sender in ((sender, s) ∷ [], answer)
at_sender sender g ((name, s) ∷ rows) =
    let (s', answer) = g s in
    let (rows', answer') = at_sender sender g rows in
    if str_eq name sender then ((name, s') ∷ rows, answer) else ((name, s) ∷ rows', answer')

module _ {ℓ} {W : Type ℓ} ⦃f : Float W⦄ (near : W) where
  unfoldable pub levenshtein_ratio : List ℕ → List ℕ → W
  unfolding levenshtein
  levenshtein_ratio a b =
      let max_len = max (length a) (length b) in
      if max_len == 0
      then f.one
      else f.sub f.one (f.div (f.of_i32 (pos (levenshtein a b))) (f.of_i32 (pos max_len)))

  unfoldable pub is_near_duplicate : List ℕ → List (ℕ × List ℕ) → Bool
  unfolding levenshtein_ratio
  is_near_duplicate content [] = false
  is_near_duplicate content ((_, prev) ∷ cs) =
      f.le near (levenshtein_ratio prev content) || is_near_duplicate content cs

  -- What an event does to its sender's entry, and whether the next event is to be ignored.
  unfoldable pub record_event : ℕ → ℕ → ℕ → ℕ → List ℕ → SenderState → SenderState × Bool
  unfolding drop_aged retain_young is_near_duplicate
  record_event msgs_per_window window_secs cooldown_secs now content s =
      let timestamps = drop_aged now (seconds window_secs) (s.timestamps ++ now ∷ []) in
      let young = retain_young now near_dup_window s.last_contents in
      let seen : SenderState = record {
        timestamps = timestamps;
        last_contents = at_most_sixteen (young ++ (now, content) ∷ []);
        cooldown_until = none;
      } in
      if is_cooling now s.cooldown_until
      then (s, true)
      else if ltb msgs_per_window (length timestamps) || is_near_duplicate content young
      then (record seen { cooldown_until = some (now + seconds cooldown_secs) }, true)
      else (seen, false)

  unfoldable pub record_for : ℕ → ℕ → ℕ → ℕ → String → List ℕ → SpamGuard → SpamGuard × Bool
  unfolding record_event at_sender
  record_for msgs_per_window window_secs cooldown_secs now sender content =
      at_sender sender (record_event msgs_per_window window_secs cooldown_secs now content)

unfoldable pub is_suppressed : String → ℕ → SpamGuard → Bool
is_suppressed sender now [] = false
is_suppressed sender now ((name, s) ∷ rows) =
    let rest = is_suppressed sender now rows in
    if str_eq name sender then is_cooling now s.cooldown_until else rest

abbrev pub still_cooling : ℕ → Option ℕ → Option ℕ
still_cooling now none = none
still_cooling now (some until) = if leb until now then none else some until

abbrev pub aged : ℕ → SenderState → SenderState
aged now s = record {
  timestamps = drop_aged now near_dup_window s.timestamps;
  last_contents = retain_young now near_dup_window s.last_contents;
  cooldown_until = still_cooling now s.cooldown_until;
}

-- Nothing is left that would count.
abbrev pub is_idle : Option ℕ → List ℕ → List (ℕ × List ℕ) → Bool
is_idle (some _) _ _ = false
is_idle none (_ ∷ _) _ = false
is_idle none [] (_ ∷ _) = false
is_idle none [] [] = true

unfoldable pub prune : ℕ → SpamGuard → SpamGuard
unfolding drop_aged retain_young
prune now [] = []
prune now ((name, s) ∷ rows) =
    let s' = aged now s in
    let rest = prune now rows in
    if is_idle s'.cooldown_until s'.timestamps s'.last_contents then rest else (name, s') ∷ rest
