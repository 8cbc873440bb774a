-- ===== src/Shop.antt =====
-- src/store/mod.rs, src/store/utils.rs and `perform_trade` of src/store/orders.rs: what an order's
-- handler works on. The bot's answers to whispers are a list like those to chest transfers, and its
-- answer to the one trade is data; the texts of the whispers are not modelled. The calls of
-- `advance_trade` are recorded.
use cj_store.Prelude.{
  true, false, not, ◌||◌, Option, none, some, List, [], ◌∷◌, ◌++◌, String, Result, ok, err, ℕ, ◌*◌,
  Bool, if◌then◌else◌, str_eq,
}
use cj_store.Prelude.Int.{ℤ, pos, ◌+ℤ◌, ltb_ℤ}
use cj_store.Float.{Float}
use cj_store.Types.{ItemId, base_currency_item}
use cj_store.Messages.{F64, TradeItem}
use cj_store.TradeState.{Transition}
use cj_store.Rollback.{Desk}
use cj_store.Transfers.{TransferError}
use cj_store.Ledger.{User, Pair, Map, Books, Issue, lookup, assert_invariants}
use cj_store.Ledger.Users.{is_valid_uuid_shape}

-- The errors that reach the caller of a handler.
pub data WhisperError : Type 0 where
  bot_disconnected bot_ack_timeout : WhisperError
  bot_reported_error : String → WhisperError

-- The answer to `TradeWithPlayer`.
pub data TradeAnswer : Type 0 where
  received : List TradeItem → TradeAnswer
  rejected : String → TradeAnswer
  no_answer_in_time answer_dropped not_sent : TradeAnswer

pub data OrderError : Type 0 where
  invariant_violation : List (Issue F64) → OrderError
  quantity_too_large : OrderError
  whisper_failed : WhisperError → OrderError
  unknown_pair unknown_user : String → OrderError
  trade_unanswered : TradeAnswer → OrderError
  chest_transfer_failed : TransferError → OrderError

-- `TradeWithPlayer`
pub record TradeRequest : Type 0 where
  pub bot_offers : List TradeItem
  pub player_offers : List TradeItem
  pub require_exact_amount : Bool
  pub flexible_validation : Bool

-- An order's `OrderType` has the same variants, under other names for the two of stock.
pub data TradeType : Type 0 where
  buy sell add_stock remove_stock deposit_balance withdraw_balance add_currency remove_currency :
      TradeType

-- `types::Trade` and `types::Order`, without their times.
pub record Deal : Type 0 where
  pub trade_type : TradeType
  pub item : ItemId
  pub amount : ℤ
  pub amount_currency : F64
  pub user_uuid : String

pub record Shop : Type 0 where
  pub desk : Desk
  pub users : Map (User F64)
  pub pairs : Map (Pair F64)
  pub fee : F64
  pub dirty_users : List String
  pub trades : List Deal
  pub orders : List Deal
  pub advanced : List Transition
  pub whispers : List (Result (Unit {0}) WhisperError)
  pub trade_answer : TradeAnswer
  pub trade_requests : List TradeRequest

-- The validation's answer: a message to the player, an error, or a plan.
pub data Verdict (P : Type 0) : Type 0 where
  refused too_large : Verdict P
  accepted : P → Verdict P

-- How many full slots a player can offer in a trade.
abbrev pub trade_offer_slots_per_side : ℕ
trade_offer_slots_per_side = 12

abbrev pub Answer : Type 0
Answer = Shop × Result (Unit {0}) OrderError

abbrev pub books : Shop → Books F64
books sh = record { users = sh.users; pairs = sh.pairs; storage = sh.desk.depot.storage }

abbrev pub with_desk : Desk → Shop → Shop
with_desk d sh = record sh { desk = d }

abbrev pub mark_dirty : Shop → Shop
mark_dirty sh = record sh {
  desk = record sh.desk { depot = record sh.desk.depot { dirty = true } };
}

-- `store.advance_trade(..)`
abbrev pub advance : Transition → Shop → Shop
advance t sh = record sh { advanced = sh.advanced ++ t ∷ [] }

abbrev pub mark_user : String → Shop → Shop
mark_user uuid sh = record sh { dirty_users = uuid ∷ sh.dirty_users }

unfoldable pub update {ℓ} : {A : Type ℓ} → String → (A → A) → Map A → Map A
update k g [] = []
update k g ((i, a) ∷ rows) =
    let rest = update k g rows in if str_eq i k then (i, g a) ∷ rows else (i, a) ∷ rest

-- `send_message_to_player`: the answer to the next whisper; a closed channel gives none.
abbrev pub answer_of : Shop → List (Result (Unit {0}) WhisperError) → Answer
answer_of sh [] = (sh, err (whisper_failed bot_disconnected))
answer_of sh (ok _ ∷ ws) = (record sh { whispers = ws }, ok tt)
answer_of sh (err e ∷ ws) = (record sh { whispers = ws }, err (whisper_failed e))

unfoldable pub send_message_to_player : Shop → Answer
send_message_to_player sh = answer_of sh sh.whispers

-- What follows a whisper whose error goes to the caller.
abbrev pub and_then : Answer → (Shop → Answer) → Answer
and_then (sh, err e) k = (sh, err e)
and_then (sh, ok _) k = k sh

-- The bot is asked for a trade.
abbrev pub request_trade : List TradeItem → List TradeItem → Bool → Bool → Shop → Shop
request_trade bot_offers player_offers exact flexible sh = record sh {
  trade_requests =
      sh.trade_requests
      ++ record {
        bot_offers = bot_offers;
        player_offers = player_offers;
        require_exact_amount = exact;
        flexible_validation = flexible;
      }
        ∷ [];
}

-- The items of an offer; nothing is offered for none.
abbrev pub offer : ItemId → ℤ → List TradeItem
offer item amount =
    if ltb_ℤ (pos 0) amount then record { item = item; amount = amount } ∷ [] else []

-- How much of an item there is in what the player gave, by the test `is_it` on identifiers.
unfoldable pub amount_in : (String → Bool) → List TradeItem → ℤ
amount_in is_it [] = pos 0
amount_in is_it (t ∷ ts) =
    if is_it t.item then t.amount +ℤ amount_in is_it ts else amount_in is_it ts

-- The diamonds among what the player gave.
unfoldable pub diamonds_in : List TradeItem → ℤ
unfolding amount_in
diamonds_in = amount_in (λ item. str_eq item base_currency_item)

-- `MAX_TRADE_DIAMONDS`: the slots, full of diamonds.
abbrev pub max_trade_diamonds : ℕ
max_trade_diamonds = trade_offer_slots_per_side * 64

-- A committed order is put on record, among the trades and among the orders.
abbrev pub recorded_as : Deal → Deal → Shop → Shop
recorded_as trade order sh = record sh {
  trades = sh.trades ++ trade ∷ [];
  orders = sh.orders ++ order ∷ [];
}

abbrev pub recorded : Deal → Shop → Shop
recorded deal = recorded_as deal deal

module _ ⦃f : Float F64⦄ where
  -- A user who is not there is added; a changed name is taken over, unless it looks like a uuid.
  abbrev pub renamed : String → String → User F64 → Shop → Shop
  renamed username uuid u sh =
      if str_eq u.username username || is_valid_uuid_shape username
      then sh
      else mark_user uuid (
          mark_dirty (record sh {
            users = update uuid (λ (v : User F64). record v { username = username }) sh.users;
          }))

  abbrev pub newcomer : String → String → User F64
  newcomer username uuid = record {
    uuid = uuid;
    username = username;
    balance = f.nought;
    operator = false;
  }

  abbrev pub enrolled : String → String → Shop → Option (User F64) → Shop
  enrolled username uuid sh none =
      mark_user uuid (mark_dirty (record sh { users = (uuid, newcomer username uuid) ∷ sh.users }))
  enrolled username uuid sh (some u) = renamed username uuid u sh

  unfoldable pub ensure_user_exists : String → String → Shop → Shop
  unfolding is_valid_uuid_shape lookup update
  ensure_user_exists username uuid sh =
      if not (is_valid_uuid_shape uuid)
      then sh
      else enrolled username uuid sh (lookup uuid sh.users)

  -- The repair of the books after an order, in memory.
  unfoldable pub audited : Shop → Shop
  unfolding assert_invariants
  audited sh = record sh { pairs = (assert_invariants true (books sh)).1.pairs }
