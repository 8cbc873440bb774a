-- ===== src/Tests/Talk.antt =====
-- Runs of the routing of whispers, of the distance of two texts and of the guard against spam.
use cj_store.Prelude.{ℕ, String, ◌≡◌, ◌≤◌, List, [], ◌∷◌, arith}
use cj_store.Chat.Distance.{levenshtein}
use cj_store.Chat.Distance.Least.{Edits, levenshtein-least}
use cj_store.Chat.SpamGuard.{is_suppressed, prune}
use cj_store.Chat.SpamGuard.Pruning.{Call, recorded, pruned, after}
use cj_store.Chat.SpamGuard.Pruning.Verdicts.{verdicts, prune-verdicts}
use cj_store.Tests.Shops.{whole_diamonds}

-- The bytes of "buy" and "bY".
abbrev buy : List ℕ
buy = 98 ∷ 117 ∷ 121 ∷ []

abbrev by : List ℕ
by = 98 ∷ 89 ∷ []

levenshtein-least_example :
    Edits buy by (levenshtein buy by) × ((n : ℕ) → Edits buy by n → levenshtein buy by ≤ n)
levenshtein-least_example = levenshtein-least buy by

abbrev calls : List Call
calls = recorded 1000 "Alex" buy ∷ pruned 1200 ∷ recorded 1400 "Alex" by ∷ []

-- Ben sends for the first time after the pruning, and Alex again.
abbrev events : List (ℕ × String × List ℕ)
events = (1600, "Ben", by) ∷ (2000, "Alex", buy) ∷ []

prune-verdicts_example :
    let guard = after {W = ℕ} 1 1 10 300 calls [] in
    (verdicts {W = ℕ} 1 1 10 300 events (prune 1500 guard)
      ≡ verdicts {W = ℕ} 1 1 10 300 events guard)
    × ((later : ℕ) (sender : String)
        → 1500 ≤ later
        → is_suppressed sender later (prune 1500 guard) ≡ is_suppressed sender later guard)
prune-verdicts_example =
    prune-verdicts {W = ℕ} 1 1 10 300 calls 1500 events (omega arith)
      (omega arith, (omega arith, tt))
