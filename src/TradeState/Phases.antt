-- ===== src/TradeState/Phases.antt =====
-- One call of a transition: which calls are accepted, and what they keep.
use cj_store.Prelude.{ℕ, ◌<◌, ◌≡◌, refl, Bool, true, false, String, ok, err, arith}
use cj_store.TradeState.{
  TradeState, queued, withdrawing, trading, depositing, committed, rolled_back, Transition,
  begins_withdrawal, begins_trading, begins_depositing, commits, rolls_back, apply, phase,
  is_terminal, order, Next,
}

-- How far a trade has come.
abbrev pub rank : TradeState → ℕ
rank (queued _) = 0
rank (withdrawing _ _) = 1
rank (trading _ _) = 2
rank (depositing _ _ _) = 3
rank (committed _) = 4
rank (rolled_back _ _) = 4

-- The transitions by their names in the log.
abbrev pub label : Transition → String
label (begins_withdrawal _) = "begin_withdrawal"
label begins_trading = "begin_trading"
label (begins_depositing _ _) = "begin_depositing"
label (commits _ _ _) = "commit"
label (rolls_back _) = "rollback"

-- The diagram of the source's comments: which call is accepted in which state.
abbrev pub allowed : Transition → TradeState → Bool
allowed (begins_withdrawal _) (queued _) = true
allowed begins_trading (withdrawing _ _) = true
allowed (begins_depositing _ _) (trading _ _) = true
allowed (commits _ _ _) (trading _ _) = true
allowed (commits _ _ _) (depositing _ _ _) = true
allowed (rolls_back _) (committed _) = false
allowed (rolls_back _) (rolled_back _ _) = false
allowed (rolls_back _) _ = true
allowed _ _ = false

-- What a call may answer.
abbrev pub Answers : Transition → TradeState → Next → Type 0
Answers t s (ok s') =
    (allowed t s ≡ true) × (order s' ≡ order s) × (rank s < rank s') × (is_terminal s ≡ false)
Answers t s (err e) = (allowed t s ≡ false) × (e.from ≡ phase s) × (e.to ≡ label t)

-- A transition is accepted exactly in the states of the diagram. Then the order stays the same and
-- the trade has come further; otherwise the error names the present phase and the call.
pub apply-Answers : (t : Transition) (s : TradeState) → Answers t s (apply t s)
unfolding apply order phase is_terminal
apply-Answers (begins_withdrawal _) (queued _) = (refl, refl, omega arith, refl)
apply-Answers begins_trading (withdrawing _ _) = (refl, refl, omega arith, refl)
apply-Answers (begins_depositing _ _) (trading _ _) = (refl, refl, omega arith, refl)
apply-Answers (commits _ _ _) (trading _ _) = (refl, refl, omega arith, refl)
apply-Answers (commits _ _ _) (depositing _ _ _) = (refl, refl, omega arith, refl)
apply-Answers (rolls_back _) (queued _) = (refl, refl, omega arith, refl)
apply-Answers (rolls_back _) (withdrawing _ _) = (refl, refl, omega arith, refl)
apply-Answers (rolls_back _) (trading _ _) = (refl, refl, omega arith, refl)
apply-Answers (rolls_back _) (depositing _ _ _) = (refl, refl, omega arith, refl)
apply-Answers _ _ = (refl, refl, refl)
