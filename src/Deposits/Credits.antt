-- ===== src/Deposits/Credits.antt =====
-- What a deposit of diamonds does to the books.
use mathlib.Core.Path.{subst}
use mathlib.Core.List.{append-nil}
use cj_store.Prelude.{
  ℕ, ◌≤◌, ◌<◌, ◌≡◌, ◌⊎◌, refl, ap, sym, ◌∙◌, inl, inr, Bool, false, Option, none, some, List, [],
  ◌∷◌, ◌++◌, String, Result, ok, err, arith, if_split, Option-cases,
}
use cj_store.Prelude.Int.{ℤ, pos, negsuc, leb_ℤ, ◌≤ℤ◌}
use cj_store.Float.{Float}
use cj_store.Types.{Node, base_currency_item}
use cj_store.Messages.{F64, TradeItem}
use cj_store.TradeState.{Transition, begins_withdrawal, begins_trading, commits, rolls_back}
use cj_store.Rollback.{Desk, RollbackResult}
use cj_store.Rollback.Planning.{rollback_amount_to_storage}
use cj_store.Rollback.Growth.{AllCounted, rollback_amount_to_storage-AllCounted}
use cj_store.Ledger.{User, Issue, lookup, assert_invariants}
use cj_store.Shop.{
  Shop, Answer, TradeAnswer, received, rejected, no_answer_in_time, answer_dropped, not_sent, books,
  with_desk, advance, update, send_message_to_player, and_then, diamonds_in, ensure_user_exists,
}
use cj_store.Course.{
  two_calls, three_calls, SameBooks, whisper-SameBooks, ensure_user_exists-keeps-trade_answer,
}
use cj_store.Deposits.{
  diamonds_to_trade, request_diamonds, deposit_deal, committed_deposit, commit_deposit,
  stored_deposit, given_diamonds, deposit_answered, deposit_window, deposit_asked, gated_deposit,
  handle_deposit_balance_queued,
}

-- The calls of a deposit that credits nothing: none, or those up to the trade, with a rollback or
-- without one.
abbrev pub LeftOpen : List Transition → Type 0
LeftOpen calls =
    (calls ≡ [])
    ⊎ ((calls ≡ begins_withdrawal [] ∷ begins_trading ∷ [])
        ⊎ ((reason : String) × (calls
              ≡ begins_withdrawal [] ∷ begins_trading ∷ rolls_back reason ∷ [])))

abbrev pub NotCredited : Shop → Shop → Type 0
NotCredited start sh =
    (sh.users ≡ start.users)
    × (sh.pairs ≡ start.pairs)
    × (sh.trades ≡ start.trades)
    × (calls : List Transition) × (sh.advanced ≡ start.advanced ++ calls)
    × LeftOpen calls

-- How many of the given diamonds reach the warehouse.
abbrev pub stored_of : (Node → Bool) → ℤ → Desk → ℤ
stored_of save given d =
    (rollback_amount_to_storage save base_currency_item given (pos 64) d).0.items_returned

abbrev pub Credited : ⦃f : Float F64⦄ → (Node → Bool) → String → String → Shop → Shop → Type 0
Credited ⦃f⦄ save player_name user_uuid start sh =
    (items : List TradeItem) × (credited : ℕ) × (start.trade_answer ≡ received items)
    × (0 < credited)
    × (pos credited ≤ℤ diamonds_in items)
    × (pos credited ≡ stored_of save (diamonds_in items) start.desk)
    × (sh.users
        ≡ update user_uuid
            (λ (u : User F64). record u {
              balance = f.add u.balance (f.of_i32 (pos credited));
              username = player_name;
            })
            start.users)
    × (sh.trades ≡ start.trades ++ deposit_deal user_uuid (pos credited) ∷ [])
    × (sh.advanced
        ≡ start.advanced
          ++ begins_withdrawal []
            ∷ begins_trading
            ∷ commits base_currency_item (pos credited) (f.of_i32 (pos credited))
            ∷ [])

abbrev pub CreditEnd : ⦃f : Float F64⦄ → (Node → Bool) → String → String → Shop → Shop → Type 0
CreditEnd save player_name user_uuid start sh =
    NotCredited start sh ⊎ Credited save player_name user_uuid start sh

-- The diamonds that the player gave are a machine integer.
abbrev pub FitsI32 : TradeAnswer → Type 0
FitsI32 (received items) = diamonds_in items ≤ℤ pos 2147483647
FitsI32 _ = Unit

some_given : (z : ℤ) → leb_ℤ z (pos 0) ≡ false → (n : ℕ) × (z ≡ pos n)
some_given (pos n) h = (n, refl)
some_given (negsuc n) h = ground (arith, h)

counted :
    (save : Node → Bool) (z : ℤ) (q : ℕ) (d : Desk)
    → z ≡ pos q
    → q ≤ 2147483647
    → AllCounted q (rollback_amount_to_storage save base_currency_item z (pos 64) d).0
counted save z q d e fits =
    subst
      (λ (y : ℤ). AllCounted q (rollback_amount_to_storage save base_currency_item y (pos 64) d).0)
      (sym e) (rollback_amount_to_storage-AllCounted save base_currency_item q 64 d fits)

module _ ⦃f : Float F64⦄ (save : Node → Bool) (player_name user_uuid : String) where
  from_same :
      (start start' sh : Shop)
      → SameBooks start start'
      → CreditEnd save player_name user_uuid start' sh
      → CreditEnd save player_name user_uuid start sh
  from_same start start' sh (a, u, p, t, x, d) (inl (users, pairs, trades, calls, called, left)) =
      inl (users ∙ u, pairs ∙ p, trades ∙ t, calls, called ∙ ap (λ xs. xs ++ calls) a, left)
  from_same start start' sh (a, u, p, t, x, d)
        (inr (items, credited, answer, some_, bound, stored, users, trades, called)) =
      inr (
        items,
        credited,
        sym x ∙ answer,
        some_,
        bound,
        stored ∙ ap (λ e. stored_of save (diamonds_in items) e) d,
        users
            ∙ ap
                (λ xs.
                  update user_uuid
                    (λ (u : User F64). record u {
                      balance = f.add u.balance (f.of_i32 (pos credited));
                      username = player_name;
                    })
                    xs)
                u,
        trades ∙ ap (λ xs. xs ++ deposit_deal user_uuid (pos credited) ∷ []) t,
        called
            ∙ ap
                (λ xs.
                  xs
                  ++ begins_withdrawal []
                    ∷ begins_trading
                    ∷ commits base_currency_item (pos credited) (f.of_i32 (pos credited))
                    ∷ [])
                a,
      )

  -- The shop in the trade window.
  abbrev in_window : Option F64 → ℤ → Shop → Shop
  in_window amount diamonds sh =
      request_diamonds amount diamonds (advance begins_trading (advance (begins_withdrawal []) sh))

  -- A whisper after which the trade is left in the window, and one after a rollback.
  left_trading :
      (start w sh : Shop)
      → SameBooks w sh
      → (w.users ≡ start.users) × (w.pairs ≡ start.pairs) × (w.trades ≡ start.trades)
      → w.advanced ≡ (start.advanced ++ begins_withdrawal [] ∷ []) ++ begins_trading ∷ []
      → CreditEnd save player_name user_uuid start sh
  left_trading start w sh (a, u, p, t, _, _) (wu, wp, wt) wa = inl (
    u ∙ wu,
    p ∙ wp,
    t ∙ wt,
    begins_withdrawal [] ∷ begins_trading ∷ [],
    a ∙ wa ∙ two_calls start.advanced (begins_withdrawal []) begins_trading,
    inr (inl refl),
  )

  left_rolled :
      (start w sh : Shop) (reason : String)
      → SameBooks (advance (rolls_back reason) w) sh
      → (w.users ≡ start.users) × (w.pairs ≡ start.pairs) × (w.trades ≡ start.trades)
      → w.advanced ≡ (start.advanced ++ begins_withdrawal [] ∷ []) ++ begins_trading ∷ []
      → CreditEnd save player_name user_uuid start sh
  left_rolled start w sh reason (a, u, p, t, _, _) (wu, wp, wt) wa = inl (
    u ∙ wu,
    p ∙ wp,
    t ∙ wt,
    begins_withdrawal [] ∷ begins_trading ∷ rolls_back reason ∷ [],
    a
        ∙ ap (λ ys. ys ++ rolls_back reason ∷ []) wa
        ∙ three_calls start.advanced (begins_withdrawal []) begins_trading (rolls_back reason),
    inr (inr (reason, refl)),
  )

module _ ⦃f : Float F64⦄ (save : Node → Bool) (player_name user_uuid : String) (amount : Option F64)
    (diamonds : ℤ) where
  commit_deposit-CreditEnd :
      (start : Shop) (d : Desk) (items : List TradeItem) (n : ℕ)
      → start.trade_answer ≡ received items
      → 0 < n
      → pos n ≤ℤ diamonds_in items
      → pos n ≡ stored_of save (diamonds_in items) start.desk
      → CreditEnd save player_name user_uuid start
          (commit_deposit player_name user_uuid
            (pos n)
            (with_desk d (in_window save player_name user_uuid amount diamonds start))).0
  unfolding commit_deposit
  commit_deposit-CreditEnd start d items n answer some_ bound stored =
      let w : Shop = with_desk d (in_window save player_name user_uuid amount diamonds start) in
      elim (Option-cases (lookup user_uuid start.users)) [
        | inl missing ↦
            rw (missing, commit_deposit)
              (left_trading save player_name user_uuid start w w
                (refl, refl, refl, refl, refl, refl) (refl, refl, refl) refl)
        | inr (u, there) ↦
            let last : Shop = committed_deposit player_name user_uuid (pos n) w in
            let (a, us, _, t, _, _) = whisper-SameBooks last in
            rw (there, commit_deposit)
              (inr (
                items,
                n,
                answer,
                some_,
                bound,
                stored,
                us,
                t,
                a
                    ∙ three_calls start.advanced (begins_withdrawal []) begins_trading
                        (commits base_currency_item (pos n) (f.of_i32 (pos n))),
              ))
      ]

  stored_deposit-CreditEnd :
      (start : Shop) (items : List TradeItem) (q : ℕ) (x : RollbackResult × Desk)
      → start.trade_answer ≡ received items
      → diamonds_in items ≡ pos q
      → AllCounted q x.0
      → x.0.items_returned ≡ stored_of save (diamonds_in items) start.desk
      → CreditEnd save player_name user_uuid start
          (stored_deposit player_name user_uuid
            (in_window save player_name user_uuid amount diamonds start)
            x).0
  stored_deposit-CreditEnd start items q (r, d) answer given (n, stuck, left, e, _, _, sum) stored =
      let w : Shop = in_window save player_name user_uuid amount diamonds start in
      rw e (
        if_split (λ (x : Answer). CreditEnd save player_name user_uuid start x.0)
          (leb_ℤ (pos n) (pos 0)) {x = send_message_to_player (with_desk d w)}
          {y = commit_deposit player_name user_uuid (pos n) (with_desk d w)}
          (λ _.
            left_trading save player_name user_uuid start (with_desk d w)
              (send_message_to_player (with_desk d w)).0 (whisper-SameBooks (with_desk d w))
              (refl, refl, refl) refl)
          (λ h.
            commit_deposit-CreditEnd start d items n answer (ground (arith, h))
              (rw given (omega (arith, sum))) (sym e ∙ stored)))

  unanswered :
      (start : Shop)
      → CreditEnd save player_name user_uuid start (
          advance
            (rolls_back "deposit/trade-error")
            (in_window save player_name user_uuid amount diamonds start))
  unanswered start =
      let w : Shop = in_window save player_name user_uuid amount diamonds start in
      left_rolled save player_name user_uuid start w (advance (rolls_back "deposit/trade-error") w)
        "deposit/trade-error" (refl, refl, refl, refl, refl, refl) (refl, refl, refl) refl

  given_diamonds-CreditEnd :
      (start : Shop) (items : List TradeItem)
      → start.trade_answer ≡ received items
      → diamonds_in items ≤ℤ pos 2147483647
      → CreditEnd save player_name user_uuid start
          (given_diamonds save player_name user_uuid
            (diamonds_in items)
            (in_window save player_name user_uuid amount diamonds start)).0
  unfolding given_diamonds
  given_diamonds-CreditEnd start items answer fits =
      let w : Shop = in_window save player_name user_uuid amount diamonds start in
      let rolled : Shop = advance (rolls_back "deposit/zero-diamonds") w in
      let given = diamonds_in items in
      let x = rollback_amount_to_storage save base_currency_item given (pos 64) w.desk in
      if_split (λ (x : Answer). CreditEnd save player_name user_uuid start x.0)
        (leb_ℤ given (pos 0)) {x = send_message_to_player rolled}
        {y = stored_deposit player_name user_uuid w x}
        (λ _.
          left_rolled save player_name user_uuid start w (send_message_to_player rolled).0
            "deposit/zero-diamonds" (whisper-SameBooks rolled) (refl, refl, refl) refl)
        (λ h.
          let (q, e) = some_given given h in
          stored_deposit-CreditEnd start items q x answer e
            (counted save given q w.desk e (in_range given q e fits)) refl)
    where
      in_range : (z : ℤ) (q : ℕ) → z ≡ pos q → z ≤ℤ pos 2147483647 → q ≤ 2147483647
      in_range z q e le = omega (arith, (rw e at le))

  deposit_answered-CreditEnd :
      (start : Shop) (x : TradeAnswer)
      → start.trade_answer ≡ x
      → FitsI32 x
      → CreditEnd save player_name user_uuid start
          (deposit_answered save player_name user_uuid
            (in_window save player_name user_uuid amount diamonds start)
            x).0
  unfolding deposit_answered
  deposit_answered-CreditEnd start (received items) answer fits =
      given_diamonds-CreditEnd start items answer fits
  deposit_answered-CreditEnd start (rejected _) answer fits =
      let w : Shop = in_window save player_name user_uuid amount diamonds start in
      left_trading save player_name user_uuid start w (send_message_to_player w).0
        (whisper-SameBooks w) (refl, refl, refl) refl
  deposit_answered-CreditEnd start no_answer_in_time answer fits = unanswered start
  deposit_answered-CreditEnd start answer_dropped answer fits = unanswered start
  deposit_answered-CreditEnd start not_sent answer fits = unanswered start

module _ ⦃f : Float F64⦄ (save : Node → Bool) (player_name user_uuid : String)
    (amount : Option F64) where
  asked-CreditEnd :
      (diamonds : ℤ) (start : Shop) (x : Answer)
      → FitsI32 start.trade_answer
      → SameBooks start x.0
      → CreditEnd save player_name user_uuid start
          (and_then x (deposit_window save player_name user_uuid amount diamonds)).0
  asked-CreditEnd diamonds start (sh, err e) fits same =
      from_same save player_name user_uuid start sh sh same
        (inl (refl, refl, refl, [], sym (append-nil sh.advanced), inl refl))
  asked-CreditEnd diamonds start (sh, ok _) fits same =
      from_same save player_name user_uuid start sh
        (deposit_window save player_name user_uuid amount diamonds sh).0 same
        (deposit_answered-CreditEnd save player_name user_uuid amount diamonds sh sh.trade_answer
          refl (subst FitsI32 (sym same.4) fits))

  untouched : (start sh : Shop) → SameBooks start sh → CreditEnd save player_name user_uuid start sh
  untouched start sh same =
      from_same save player_name user_uuid start sh sh same
        (inl (refl, refl, refl, [], sym (append-nil sh.advanced), inl refl))

  -- A deposit either credits nothing: the users, pairs and trades are as they were once the player is
  -- enrolled, and of the transitions none is called, or those up to the trade, with a rollback after
  -- them or without one. Or the trade has taken place; then the player's balance rises by a positive
  -- number of diamonds, those that reached the warehouse, which are at most those given, the deposit of that number is the one new
  -- trade on record, and the transitions called end with a commit of that number. The diamonds that
  -- are given have to fit an `i32`.
  pub handle_deposit_balance_queued-CreditEnd :
      (sh : Shop)
      → FitsI32 sh.trade_answer
      → CreditEnd save player_name user_uuid sh
          (handle_deposit_balance_queued save player_name user_uuid amount sh).0
        ⊎ CreditEnd save player_name user_uuid
            (ensure_user_exists player_name user_uuid sh)
            (handle_deposit_balance_queued save player_name user_uuid amount sh).0
  unfolding handle_deposit_balance_queued
  handle_deposit_balance_queued-CreditEnd sh fits = go (assert_invariants false (books sh)).0
    where
      asked :
          (x : Option ℤ)
          → CreditEnd save player_name user_uuid sh
              (deposit_asked save player_name user_uuid amount sh x).0
            ⊎ CreditEnd save player_name user_uuid
                (ensure_user_exists player_name user_uuid sh)
                (deposit_asked save player_name user_uuid amount sh x).0
      asked none = inl (untouched sh (send_message_to_player sh).0 (whisper-SameBooks sh))
      asked (some diamonds) = inr (
          asked-CreditEnd diamonds (ensure_user_exists player_name user_uuid sh)
            (send_message_to_player (ensure_user_exists player_name user_uuid sh))
            (subst FitsI32 (sym (ensure_user_exists-keeps-trade_answer player_name user_uuid sh))
              fits)
            (whisper-SameBooks (ensure_user_exists player_name user_uuid sh)))

      go :
          (x : Result (Unit {0}) (List (Issue F64)))
          → CreditEnd save player_name user_uuid sh
              (gated_deposit save player_name user_uuid amount sh x).0
            ⊎ CreditEnd save player_name user_uuid
                (ensure_user_exists player_name user_uuid sh)
                (gated_deposit save player_name user_uuid amount sh x).0
      go (err issues) = inl (untouched sh sh (refl, refl, refl, refl, refl, refl))
      go (ok _) = asked (diamonds_to_trade amount)
