-- ===== src/Withdrawals/Debits.antt =====
-- What a withdrawal of diamonds does to the books.
use mathlib.Core.List.{append-nil}
use cj_store.Prelude.{
  ◌≡◌, ◌⊎◌, refl, ap, sym, ◌∙◌, inl, inr, Bool, true, false, not, ◌&&◌, ◌||◌, Option, none, some,
  List, [], ◌∷◌, ◌++◌, String, Result, ok, err, arith, if_split,
}
use cj_store.Prelude.Int.{ℤ, pos, leb_ℤ, ltb_ℤ, ◌≤ℤ◌}
use cj_store.Float.{Float}
use cj_store.Types.{Node, base_currency_item}
use cj_store.Messages.{F64, TradeItem}
use cj_store.Storage.{simulate_withdraw_plan}
use cj_store.TradeState.{Transition, begins_withdrawal, begins_trading, commits, rolls_back}
use cj_store.Rollback.{Desk}
use cj_store.Transfers.{withdrawal, TransferError, execute_chest_transfers}
use cj_store.Ledger.{User, Issue, lookup, assert_invariants}
use cj_store.Shop.{
  Shop, Answer, TradeRequest, WhisperError, answer_of, TradeAnswer, received, rejected,
  no_answer_in_time, answer_dropped, not_sent, books, with_desk, advance, update,
  send_message_to_player, and_then, max_trade_diamonds, ensure_user_exists, chest_transfer_failed,
}
use cj_store.Course.{SameBooks, SameBooks-trans, whisper-SameBooks, two_calls, three_calls}
use cj_store.Withdrawals.{
  Wanted, refused, silently, with_notice, wanted, withdraw_deal, committed_withdrawal, balance_told,
  commit_withdrawal, taken_back, withdrawal_answered, request_withdrawal, diamonds_pulled,
  pull_diamonds, check_amount, noticed, balance_checked, gated_withdrawal,
  handle_withdraw_balance_queued,
}

-- The calls of a withdrawal that debits nothing: none, or a trade that ends in a rollback.
abbrev pub Closed : List Transition → Type 0
Closed calls =
    (calls ≡ [])
    ⊎ ((reason : String) × ((calls ≡ begins_withdrawal [] ∷ rolls_back reason ∷ [])
          ⊎ (calls ≡ begins_withdrawal [] ∷ begins_trading ∷ rolls_back reason ∷ [])))

abbrev pub NotDebited : Shop → Shop → Type 0
NotDebited start sh =
    (sh.users ≡ start.users)
    × (sh.pairs ≡ start.pairs)
    × (sh.trades ≡ start.trades)
    × (calls : List Transition) × (sh.advanced ≡ start.advanced ++ calls)
    × Closed calls

-- The amount for what the player asked for, which `u` is the account of: it is cut down to whole
-- diamonds, one at least; without an amount it is the whole balance, up to a full trade.
abbrev pub IsAsked : ⦃f : Float F64⦄ → Option F64 → User F64 → F64 → Type 0
IsAsked ⦃f⦄ (some asked) u amount =
    (f.is_finite asked ≡ true)
    × (f.le asked f.nought ≡ false)
    × (f.lt (f.floor asked) f.one ≡ false)
    × (amount ≡ f.floor asked)
IsAsked ⦃f⦄ none u amount =
    (f.le (f.floor u.balance) f.nought ≡ false)
    × (amount ≡ f.lesser (f.floor u.balance) (f.of_i32 (pos 768)))

-- The last trade that the bot was asked for offers so many diamonds for nothing.
abbrev pub Offers : ℤ → Shop → Type 0
Offers whole sh =
    (before : List TradeRequest) × (sh.trade_requests
      ≡ before
        ++ record {
          bot_offers = record { item = "diamond"; amount = whole } ∷ [];
          player_offers = [];
          require_exact_amount = false;
          flexible_validation = false;
        }
          ∷ [])

abbrev pub Debited : ⦃f : Float F64⦄ → String → String → Option F64 → Shop → Shop → Type 0
Debited ⦃f⦄ player_name user_uuid asked start sh =
    (u : User F64) × (amount : F64) × (items : List TradeItem) × (lookup user_uuid start.users
      ≡ some u)
    × (start.trade_answer ≡ received items)
    × IsAsked asked u amount
    × Offers (f.to_i32 (f.floor amount)) sh
    × (f.lt u.balance amount ≡ false)
    × (pos 1 ≤ℤ f.to_i32 (f.floor amount))
    × (f.to_i32 (f.floor amount) ≤ℤ pos max_trade_diamonds)
    × (sh.users
        ≡ update user_uuid
            (λ (v : User F64). record v {
              balance = f.sub v.balance amount;
              username = player_name;
            })
            start.users)
    × (sh.trades ≡ start.trades ++ withdraw_deal user_uuid (f.to_i32 (f.floor amount)) amount ∷ [])
    × (sh.advanced
        ≡ start.advanced
          ++ begins_withdrawal []
            ∷ begins_trading
            ∷ commits base_currency_item (f.to_i32 (f.floor amount)) amount
            ∷ [])

abbrev pub DebitEnd : ⦃f : Float F64⦄ → String → String → Option F64 → Shop → Shop → Type 0
DebitEnd player_name user_uuid asked start sh =
    NotDebited start sh ⊎ Debited player_name user_uuid asked start sh

-- The checks on an amount, passed.
abbrev IsChecked : ⦃f : Float F64⦄ → User F64 → F64 → Type 0
IsChecked ⦃f⦄ u amount =
    (f.lt u.balance amount ≡ false)
    × (pos 1 ≤ℤ f.to_i32 (f.floor amount))
    × (f.to_i32 (f.floor amount) ≤ℤ pos max_trade_diamonds)

-- What `wanted` finds for the account `u`.
abbrev Found : ⦃f : Float F64⦄ → User F64 → Option F64 → Wanted → Type 0
Found u asked refused = Unit {0}
Found u asked (silently amount) = IsAsked asked u amount
Found u asked (with_notice amount) = IsAsked asked u amount

finite_positive : (x y : Bool) → (not x || y) ≡ false → (x ≡ true) × (y ≡ false)
finite_positive true y h = (refl, h)
finite_positive false y h = absurd (cc h)

wanted-Found :
    ⦃f : Float F64⦄ (u : User F64) (asked : Option F64) → Found u asked (wanted u.balance asked)
unfolding wanted
wanted-Found ⦃f⦄ u (some a) =
    if_split (Found u (some a)) (not (f.is_finite a) || f.le a f.nought) (λ _. tt)
      (λ h.
        if_split (Found u (some a)) (f.lt (f.floor a) f.one) (λ _. tt)
          (λ g.
            let (finite, positive) = finite_positive (f.is_finite a) (f.le a f.nought) h in
            if_split (Found u (some a)) (not (f.le (f.floor a) a && f.le a (f.floor a)))
              (λ _. (finite, positive, g, refl)) (λ _. (finite, positive, g, refl))))
wanted-Found ⦃f⦄ u none =
    if_split (Found u none) (f.le (f.floor u.balance) f.nought) (λ _. tt)
      (λ h.
        if_split (Found u none) (f.lt (f.of_i32 (pos max_trade_diamonds)) (f.floor u.balance))
          (λ _. (h, refl)) (λ _. (h, refl)))

module _ ⦃f : Float F64⦄ (player_name user_uuid : String) (asked : Option F64) (start : Shop) where
  -- After changes that leave the books alone.
  undebited :
      (now w sh : Shop) (calls : List Transition)
      → SameBooks start now
      → (w.users ≡ now.users) × (w.pairs ≡ now.pairs) × (w.trades ≡ now.trades)
      → w.advanced ≡ now.advanced ++ calls
      → SameBooks w sh
      → Closed calls
      → DebitEnd player_name user_uuid asked start sh
  undebited now w sh calls (a, u, p, t, _, _) (wu, wp, wt) wa (sa, su, sp, st, _, _) closed =
      inl (su ∙ wu ∙ u, sp ∙ wp ∙ p, st ∙ wt ∙ t, calls, sa ∙ wa ∙ ap (λ xs. xs ++ calls) a, closed)

  untold :
      (now sh : Shop)
      → SameBooks start now
      → SameBooks now sh
      → DebitEnd player_name user_uuid asked start sh
  untold now sh same same' =
      undebited now now sh [] same (refl, refl, refl) (sym (append-nil now.advanced)) same'
        (inl refl)

  told-SameBooks :
      (sh : Shop) (x : Option (User F64)) → SameBooks sh (balance_told user_uuid sh x).0
  told-SameBooks sh none = (refl, refl, refl, refl, refl, refl)
  told-SameBooks sh (some _) = whisper-SameBooks sh

  told-requests :
      (sh : Shop) (x : Option (User F64))
      → (balance_told user_uuid sh x).0.trade_requests ≡ sh.trade_requests
  told-requests sh none = refl
  told-requests sh (some _) = unfold send_message_to_player in go sh.whispers
    where
      go :
          (ws : List (Result (Unit {0}) WhisperError))
          → (answer_of sh ws).0.trade_requests ≡ sh.trade_requests
      go [] = refl
      go (ok _ ∷ ws) = refl
      go (err e ∷ ws) = refl

  -- The shop in the trade window.
  abbrev in_window : Desk → ℤ → Shop → Shop
  in_window d whole now =
      request_withdrawal whole
        (advance begins_trading (with_desk d (advance (begins_withdrawal []) now)))

  module _ (u : User F64) (there : lookup user_uuid start.users ≡ some u) (amount : F64)
      (evident : IsAsked asked u amount) (checked : IsChecked u amount) (save : Node → Bool) where
    commit_withdrawal-DebitEnd :
        (now : Shop) (d : Desk) (items : List TradeItem)
        → SameBooks start now
        → now.trade_answer ≡ received items
        → DebitEnd player_name user_uuid asked start
            (commit_withdrawal player_name user_uuid amount
              (f.to_i32 (f.floor amount))
              (in_window d (f.to_i32 (f.floor amount)) now)).0
    unfolding commit_withdrawal
    commit_withdrawal-DebitEnd now d items (a, us, p, t, x, _) answer =
        let whole = f.to_i32 (f.floor amount) in
        let last : Shop =
          committed_withdrawal player_name user_uuid amount whole (in_window d whole now) in
        let (sa, su, _, st, _, _) = told-SameBooks last (lookup user_uuid last.users) in
        let found : lookup user_uuid now.users ≡ some u =
          ap (λ xs. lookup user_uuid xs) us ∙ there in
        rw (found, commit_withdrawal)
          (inr (
            u,
            amount,
            items,
            there,
            sym x ∙ answer,
            evident,
            (now.trade_requests, told-requests last (lookup user_uuid last.users)),
            checked.0,
            checked.1,
            checked.2,
            su
                ∙ ap
                    (λ xs.
                      update user_uuid
                        (λ (v : User F64). record v {
                          balance = f.sub v.balance amount;
                          username = player_name;
                        })
                        xs)
                    us,
            st ∙ ap (λ xs. xs ++ withdraw_deal user_uuid whole amount ∷ []) t,
            sa
                ∙ three_calls now.advanced (begins_withdrawal []) begins_trading
                    (commits base_currency_item whole amount)
                ∙ ap
                    (λ xs.
                      xs
                      ++ begins_withdrawal []
                        ∷ begins_trading
                        ∷ commits base_currency_item whole amount
                        ∷ [])
                    a,
          ))

    taken_back-DebitEnd :
        (reason : String) (now : Shop) (d : Desk) (sh : Shop)
        → SameBooks start now
        → SameBooks
            (taken_back save reason
              (f.to_i32 (f.floor amount))
              (in_window d (f.to_i32 (f.floor amount)) now))
            sh
        → DebitEnd player_name user_uuid asked start sh
    taken_back-DebitEnd reason now d sh same told =
        let whole = f.to_i32 (f.floor amount) in
        undebited now (taken_back save reason whole (in_window d whole now)) sh
          (begins_withdrawal [] ∷ begins_trading ∷ rolls_back reason ∷ []) same (refl, refl, refl)
          (three_calls now.advanced (begins_withdrawal []) begins_trading (rolls_back reason)) told
          (inr (reason, inr refl))

    taken_back_told :
        (reason : String) (now : Shop) (d : Desk)
        → SameBooks start now
        → DebitEnd player_name user_uuid asked start
            (send_message_to_player (
              taken_back save reason
                (f.to_i32 (f.floor amount))
                (in_window d (f.to_i32 (f.floor amount)) now))).0
    taken_back_told reason now d same =
        let whole = f.to_i32 (f.floor amount) in
        let w : Shop = taken_back save reason whole (in_window d whole now) in
        taken_back-DebitEnd reason now d (send_message_to_player w).0 same (whisper-SameBooks w)

    withdrawal_answered-DebitEnd :
        (now : Shop) (d : Desk) (x : TradeAnswer)
        → SameBooks start now
        → now.trade_answer ≡ x
        → DebitEnd player_name user_uuid asked start
            (withdrawal_answered save player_name user_uuid amount
              (f.to_i32 (f.floor amount))
              (in_window d (f.to_i32 (f.floor amount)) now)
              x).0
    unfolding withdrawal_answered
    withdrawal_answered-DebitEnd now d (received items) same answer =
        commit_withdrawal-DebitEnd now d items same answer
    withdrawal_answered-DebitEnd now d (rejected _) same answer =
        taken_back_told "withdraw/trade-rejected" now d same
    withdrawal_answered-DebitEnd now d no_answer_in_time same answer =
        taken_back_told "withdraw/trade-timeout" now d same
    withdrawal_answered-DebitEnd now d answer_dropped same answer =
        taken_back_told "withdraw/channel-dropped" now d same
    withdrawal_answered-DebitEnd now d not_sent same answer =
        let whole = f.to_i32 (f.floor amount) in
        let w : Shop = taken_back save "withdraw/trade-send-failed" whole (in_window d whole now) in
        taken_back-DebitEnd "withdraw/trade-send-failed" now d w same
          (refl, refl, refl, refl, refl, refl)

    -- A whisper and then an error for the caller leave the shop as the whisper does.
    then_error-SameBooks :
        (w : Shop) (e : TransferError) (x : Answer)
        → SameBooks w x.0
        → SameBooks w (and_then x (λ (sh' : Shop). (sh', err (chest_transfer_failed e)))).0
    then_error-SameBooks w e (sh, err _) same = same
    then_error-SameBooks w e (sh, ok _) same = same

    diamonds_pulled-DebitEnd :
        (now : Shop) (x : Desk × Result (Unit {0}) TransferError)
        → SameBooks start now
        → DebitEnd player_name user_uuid asked start
            (diamonds_pulled save player_name user_uuid amount
              (f.to_i32 (f.floor amount))
              (advance (begins_withdrawal []) now)
              x).0
    diamonds_pulled-DebitEnd now (d, err e) same =
        let w : Shop =
          advance (rolls_back "withdraw/chest-pull-failed")
            (with_desk d (advance (begins_withdrawal []) now)) in
        undebited now w
          (and_then (send_message_to_player w)
            (λ (sh' : Shop). (sh', err (chest_transfer_failed e)))).0
          (begins_withdrawal [] ∷ rolls_back "withdraw/chest-pull-failed" ∷ []) same
          (refl, refl, refl)
          (two_calls now.advanced (begins_withdrawal []) (rolls_back "withdraw/chest-pull-failed"))
          (then_error-SameBooks w e (send_message_to_player w) (whisper-SameBooks w))
          (inr ("withdraw/chest-pull-failed", inl refl))
    diamonds_pulled-DebitEnd now (d, ok _) same =
        withdrawal_answered-DebitEnd now d now.trade_answer same refl

    pull_diamonds-DebitEnd :
        (now : Shop)
        → SameBooks start now
        → DebitEnd player_name user_uuid asked start
            (pull_diamonds save player_name user_uuid amount (f.to_i32 (f.floor amount)) now).0
    unfolding pull_diamonds
    pull_diamonds-DebitEnd now same =
        let whole = f.to_i32 (f.floor amount) in
        let sh' : Shop = advance (begins_withdrawal []) now in
        let (plan, planned) =
          simulate_withdraw_plan base_currency_item whole now.desk.depot.storage in
        let reason : String = "withdraw/insufficient-physical-diamonds" in
        let rolled : Shop = advance (rolls_back reason) sh' in
        let x = execute_chest_transfers plan base_currency_item (pos 64) withdrawal sh'.desk in
        if_split (λ (x : Answer). DebitEnd player_name user_uuid asked start x.0)
          (ltb_ℤ planned whole) {x = send_message_to_player rolled}
          {y = diamonds_pulled save player_name user_uuid amount whole sh' x}
          (λ _.
            undebited now rolled (send_message_to_player rolled).0
              (begins_withdrawal [] ∷ rolls_back reason ∷ []) same (refl, refl, refl)
              (two_calls now.advanced (begins_withdrawal []) (rolls_back reason))
              (whisper-SameBooks rolled) (inr (reason, inl refl)))
          (λ _. diamonds_pulled-DebitEnd now x same)

  -- The checks that are passed where none of the three tests holds.
  checks_passed :
      (u : User F64) (amount : F64)
      → (f.lt u.balance amount
          || ltb_ℤ (pos max_trade_diamonds) (f.to_i32 (f.floor amount))
          || leb_ℤ (f.to_i32 (f.floor amount)) (pos 0))
        ≡ false
      → IsChecked u amount
  checks_passed u amount h = go (f.lt u.balance amount) (f.to_i32 (f.floor amount)) h
    where
      go :
          (b : Bool) (z : ℤ)
          → (b || ltb_ℤ (pos max_trade_diamonds) z || leb_ℤ z (pos 0)) ≡ false
          → (b ≡ false) × (pos 1 ≤ℤ z) × (z ≤ℤ pos max_trade_diamonds)
      go b z h = (ground (arith, h), ground (arith, h), ground (arith, h))

  module _ (save : Node → Bool) (u : User F64) (there : lookup user_uuid start.users ≡ some u) where
    pulled-DebitEnd :
        (amount : F64) (now : Shop) (x : Answer)
        → IsAsked asked u amount
        → IsChecked u amount
        → SameBooks start now
        → SameBooks now x.0
        → DebitEnd player_name user_uuid asked start
            (and_then x
              (pull_diamonds save player_name user_uuid amount (f.to_i32 (f.floor amount)))).0
    pulled-DebitEnd amount now (sh, err e) evident checked same told = untold now sh same told
    pulled-DebitEnd amount now (sh, ok _) evident checked same told =
        pull_diamonds-DebitEnd u there amount evident checked save sh
          (SameBooks-trans start now sh same told)

    check_amount-DebitEnd :
        (amount : F64) (now : Shop)
        → IsAsked asked u amount
        → SameBooks start now
        → DebitEnd player_name user_uuid asked start
            (check_amount save player_name user_uuid u.balance amount now).0
    unfolding check_amount
    check_amount-DebitEnd amount now evident same =
        let whole = f.to_i32 (f.floor amount) in
        if_split (λ (x : Answer). DebitEnd player_name user_uuid asked start x.0)
          (f.lt u.balance amount || ltb_ℤ (pos max_trade_diamonds) whole || leb_ℤ whole (pos 0))
          {x = send_message_to_player now}
          {y = and_then (send_message_to_player now)
            (pull_diamonds save player_name user_uuid amount whole)}
          (λ _. untold now (send_message_to_player now).0 same (whisper-SameBooks now))
          (λ h.
            pulled-DebitEnd amount now (send_message_to_player now) evident
              (checks_passed u amount h) same (whisper-SameBooks now))

    noticed-DebitEnd :
        (amount : F64) (x : Answer)
        → IsAsked asked u amount
        → SameBooks start x.0
        → DebitEnd player_name user_uuid asked start
            (and_then x (check_amount save player_name user_uuid u.balance amount)).0
    noticed-DebitEnd amount (sh, err e) evident same =
        untold start sh (refl, refl, refl, refl, refl, refl) same
    noticed-DebitEnd amount (sh, ok _) evident same = check_amount-DebitEnd amount sh evident same

    wanted-DebitEnd :
        (x : Wanted)
        → Found u asked x
        → DebitEnd player_name user_uuid asked start
            (noticed save player_name user_uuid u.balance start x).0
    wanted-DebitEnd refused _ =
        untold start (send_message_to_player start).0 (refl, refl, refl, refl, refl, refl)
          (whisper-SameBooks start)
    wanted-DebitEnd (silently amount) evident =
        check_amount-DebitEnd amount start evident (refl, refl, refl, refl, refl, refl)
    wanted-DebitEnd (with_notice amount) evident =
        noticed-DebitEnd amount (send_message_to_player start) evident (whisper-SameBooks start)

-- A withdrawal either debits nothing: the users, pairs and trades are as they were, or as they were
-- once the player is enrolled, and a trade that was begun ends in a rollback. Or the bot has handed
-- the diamonds over; then the amount is what the player asked for, cut down to whole diamonds, or
-- without an amount the whole diamonds of the balance up to a full trade; it is not above the
-- balance, it comes to one diamond at least and to a full trade at most, the bot's last trade offered
-- just so many diamonds, the amount is taken from the player's balance and from no other, the
-- withdrawal is the one new trade on record, and the transitions called end with its commit.
pub handle_withdraw_balance_queued-DebitEnd :
    ⦃f : Float F64⦄ (save : Node → Bool) (player_name user_uuid : String) (amount : Option F64)
    (sh : Shop)
    → DebitEnd player_name user_uuid amount sh
        (handle_withdraw_balance_queued save player_name user_uuid amount sh).0
      ⊎ DebitEnd player_name user_uuid amount
          (ensure_user_exists player_name user_uuid sh)
          (handle_withdraw_balance_queued save player_name user_uuid amount sh).0
unfolding handle_withdraw_balance_queued
handle_withdraw_balance_queued-DebitEnd save player_name user_uuid amount sh =
    go (assert_invariants false (books sh)).0
  where
    checked :
        (start : Shop) (x : Option (User F64))
        → lookup user_uuid start.users ≡ x
        → DebitEnd player_name user_uuid amount start
            (balance_checked save player_name user_uuid amount start x).0
    checked start none missing =
        unfold balance_checked in
        untold player_name user_uuid amount start start start (refl, refl, refl, refl, refl, refl)
          (refl, refl, refl, refl, refl, refl)
    checked start (some u) there =
        unfold balance_checked in
        wanted-DebitEnd player_name user_uuid amount start save u there (wanted u.balance amount)
          (wanted-Found u amount)

    go :
        (x : Result (Unit {0}) (List (Issue F64)))
        → DebitEnd player_name user_uuid amount sh
            (gated_withdrawal save player_name user_uuid amount sh x).0
          ⊎ DebitEnd player_name user_uuid amount
              (ensure_user_exists player_name user_uuid sh)
              (gated_withdrawal save player_name user_uuid amount sh x).0
    go (err issues) = inl (
        untold player_name user_uuid amount sh sh sh (refl, refl, refl, refl, refl, refl)
          (refl, refl, refl, refl, refl, refl))
    go (ok _) = inr (
        checked (ensure_user_exists player_name user_uuid sh)
          (lookup user_uuid (ensure_user_exists player_name user_uuid sh).users) refl)
