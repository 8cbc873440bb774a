-- ===== src/TradeState/Steps.antt =====
-- Whole lives of a trade: chains of accepted transitions.
use cj_store.Prelude.{
  ◌+◌, ◌≤◌, ◌<◌, ◌≡◌, refl, ◌∙◌, true, false, List, [], ◌∷◌, ok, err, arith, length,
}
use cj_store.Queue.{QueuedOrder}
use cj_store.TradeState.{
  TradeState, Next, queued, withdrawing, trading, depositing, committed, rolled_back,
  CompletedTrade, Transition, begins_withdrawal, rolls_back, begins_trading, begins_depositing,
  commits, apply, is_terminal, order,
}
use cj_store.TradeState.Phases.{rank, apply-Answers}

-- `ts` are accepted one after another, from `s` to `v`.
pub data Runs : TradeState → List Transition → TradeState → Type 0 where
  stop : {s : TradeState} → Runs s [] s
  next :
      {s u v : TradeState} {t : Transition} {ts : List Transition}
      → apply t s ≡ ok u
      → Runs u ts v
      → Runs s (t ∷ ts) v

accepted :
    (t : Transition) (s u : TradeState)
    → apply t s ≡ ok u
    → (order u ≡ order s) × (rank s < rank u) × (is_terminal s ≡ false)
accepted t s u e = let (_, o, r, n) = (rw e at (apply-Answers t s)) in (o, r, n)

rank_le : (s : TradeState) → rank s ≤ 4
rank_le (queued _) = omega arith
rank_le (withdrawing _ _) = omega arith
rank_le (trading _ _) = omega arith
rank_le (depositing _ _ _) = omega arith
rank_le (committed _) = omega arith
rank_le (rolled_back _ _) = omega arith

Runs-rank : {s v : TradeState} {ts : List Transition} → Runs s ts v → rank s + length ts ≤ rank v
Runs-rank stop = omega arith
Runs-rank (next {s} {u} {t = t} e r) = omega (arith, (accepted t s u e).1, Runs-rank r)

-- A trade ends after at most four transitions, whatever is asked of it.
pub Runs-at_most_four : {s v : TradeState} {ts : List Transition} → Runs s ts v → length ts ≤ 4
Runs-at_most_four {v = v} r = omega (arith, Runs-rank r, rank_le v)

-- Through all its states a trade is about one order.
pub Runs-order : {s v : TradeState} {ts : List Transition} → Runs s ts v → order v ≡ order s
Runs-order stop = refl
Runs-order (next {s} {u} {t = t} e r) = Runs-order r ∙ (accepted t s u e).0

-- Nothing follows a terminal state.
pub Runs-from_terminal :
    {s v : TradeState} {ts : List Transition}
    → is_terminal s ≡ true
    → Runs s ts v
    → (ts ≡ []) × (v ≡ s)
Runs-from_terminal h stop = (refl, refl)
Runs-from_terminal h (next {s} {u} {t = t} e r) = cc ((accepted t s u e).2)

-- The calls of a completed trade, from its last one back to its first: one commit, after a
-- deposit or without one, after the trade itself, after the withdrawal.
abbrev pub Over : List Transition → Type 0
Over [] = Unit
Over _ = ⊥

abbrev pub Settles : List Transition → Type 0
Settles (commits _ _ _ ∷ ts) = Over ts
Settles _ = ⊥

abbrev pub Closes : List Transition → Type 0
Closes (commits _ _ _ ∷ ts) = Over ts
Closes (begins_depositing _ _ ∷ ts) = Settles ts
Closes _ = ⊥

abbrev pub Trades : List Transition → Type 0
Trades (begins_trading ∷ ts) = Closes ts
Trades _ = ⊥

abbrev pub Completes : List Transition → Type 0
Completes (begins_withdrawal _ ∷ ts) = Trades ts
Completes _ = ⊥

-- The calls that complete a trade from a given state on.
abbrev Ends : TradeState → List Transition → Type 0
Ends (queued _) ts = Completes ts
Ends (withdrawing _ _) ts = Trades ts
Ends (trading _ _) ts = Closes ts
Ends (depositing _ _ _) ts = Settles ts
Ends (committed _) ts = Over ts
Ends (rolled_back _ _) ts = ⊥

abbrev After : Next → List Transition → Type 0
After (ok u) ts = Ends u ts
After (err _) ts = ⊥

Ends-back :
    (t : Transition) (s : TradeState) (ts : List Transition)
    → After (apply t s) ts
    → Ends s (t ∷ ts)
unfolding apply
Ends-back (begins_withdrawal _) (queued _) ts h = h
Ends-back begins_trading (withdrawing _ _) ts h = h
Ends-back (begins_depositing _ _) (trading _ _) ts h = h
Ends-back (commits _ _ _) (trading _ _) ts h = h
Ends-back (commits _ _ _) (depositing _ _ _) ts h = h
Ends-back (rolls_back _) (queued _) ts h = absurd h
Ends-back (rolls_back _) (withdrawing _ _) ts h = absurd h
Ends-back _ _ ts h = absurd h

Runs-Ends :
    {s v : TradeState} {ts : List Transition} (c : CompletedTrade)
    → Runs s ts v
    → v ≡ committed c
    → Ends s ts
Runs-Ends c stop e = rw e tt
Runs-Ends c (next {s} {u} {t = t} {ts = ts} a r) e = Ends-back t s ts (rw a (Runs-Ends c r e))

-- A trade that is committed was withdrawn for, then traded, then perhaps deposited, then
-- committed, by exactly these calls in this order; no chain skips one.
pub committed-Completes :
    (o : QueuedOrder) (c : CompletedTrade) (ts : List Transition)
    → Runs (queued o) ts (committed c)
    → Completes ts
committed-Completes o c ts r = Runs-Ends c r refl
