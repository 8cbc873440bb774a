-- ===== src/Commands.antt =====
-- src/store/command.rs and src/store/handlers/validation.rs: the parser of players' commands and the
-- validators. The reading of an `f64` is a parameter, as the operations on it are; a text for the
-- player stands as the reason for it.
pub mod Checked
use Prim.Native.Char.{Char, code}
use Prim.Native.String.{[], ◌∷◌, len}
use mathlib.Core.List
use cj_store.Prelude.{
  ℕ, ◌+◌, ◌*◌, ◌-◌, ◌^◌, Bool, true, false, not, ◌&&◌, ◌||◌, Option, none, some, List, String,
  Result, ok, err, ◌>>=◌, if◌then◌else◌, str_eq, ltb, leb, ◌==◌, max,
}
use cj_store.Prelude.Int.{pos}
use cj_store.Float.{Float}
use cj_store.Types.{ItemId}
use cj_store.Messages.{F64}
use cj_store.ItemNames.{is_between, is_ascii_digit, is_allowed, all, is_blank}
use cj_store.ItemNames
use cj_store.Shop.{max_trade_diamonds}

pub data Command : Type 0 where
  buy sell add_item remove_item : ItemId → ℕ → Command
  deposit withdraw : Option F64 → Command
  price : ItemId → Option ℕ → Command
  balance help : Option String → Command
  pay : String → F64 → Command
  items queue : ℕ → Command
  cancel : ℕ → Command
  status : Command
  add_currency remove_currency : ItemId → F64 → Command

pub data Rejection : Type 0 where
  no_command : Rejection
  unknown_command usage : String → Rejection
  item_empty item_character item_invalid : Rejection
  quantity_invalid quantity_zero quantity_too_large : Rejection
  amount_invalid amount_not_finite amount_not_positive amount_too_large : Rejection
  username_length username_character : Rejection
  order_id_invalid : Rejection

abbrev pub max_transaction_quantity : ℕ
max_transaction_quantity = 1000000

-- `char::is_whitespace`
unfoldable pub is_whitespace : Char → Bool
is_whitespace c =
    is_between c 9 13
    || code c == 32
    || code c == 133
    || code c == 160
    || code c == 5760
    || is_between c 8192 8202
    || is_between c 8232 8233
    || code c == 8239
    || code c == 8287
    || code c == 12288

abbrev pub push_word : String → List String → List String
push_word w ws = if is_blank w then ws else List.◌∷◌ w ws

-- The word that the text begins with, and the words after it.
unfoldable pub cut : String → String × List String
unfolding is_whitespace
cut [] = ([], List.[])
cut (c ∷ s) = let (w, ws) = cut s in if is_whitespace c then ([], push_word w ws) else (c ∷ w, ws)

unfoldable pub split_whitespace : String → List String
unfolding cut
split_whitespace s = let (w, ws) = cut s in push_word w ws

-- `str::parse` for an unsigned integer of at most `limit`: digits, after a `+` or without one.
unfoldable pub digits : ℕ → String → Option ℕ
digits n [] = some n
digits n (c ∷ s) =
    let rest = digits (n * 10 + (code c - 48)) s in if is_ascii_digit c then rest else none

abbrev pub within_limit : ℕ → Option ℕ → Option ℕ
within_limit limit none = none
within_limit limit (some n) = if leb n limit then some n else none

abbrev pub unsigned : String → String
unsigned [] = []
unsigned (c ∷ s) = if code c == 43 then s else c ∷ s

unfoldable pub parse_unsigned : ℕ → String → Option ℕ
unfolding digits
parse_unsigned limit s =
    if is_blank (unsigned s) then none else within_limit limit (digits 0 (unsigned s))

unfoldable pub validate_item_name : String → Result ItemId Rejection
unfolding all ItemNames.new
validate_item_name item =
    if is_blank item
    then err item_empty
    else if not (all (λ c. is_allowed c || code c == 58) item)
    then err item_character
    else elim (ItemNames.new item) [ ok id ↦ ok id | err _ ↦ err item_invalid ]

abbrev pub quantity_within : Option ℕ → Result ℕ Rejection
quantity_within none = err quantity_invalid
quantity_within (some q) =
    if q == 0
    then err quantity_zero
    else if ltb max_transaction_quantity q
    then err quantity_too_large
    else ok q

unfoldable pub validate_quantity : String → Result ℕ Rejection
unfolding parse_unsigned
validate_quantity s = quantity_within (parse_unsigned (2 ^ 32 - 1) s)

-- An ASCII character is one byte.
unfoldable pub is_valid_username_shape : String → Bool
unfolding all
is_valid_username_shape username =
    leb 3 (len username) && leb (len username) 16 && all is_allowed username

unfoldable pub validate_username : String → Result (Unit {0}) Rejection
unfolding all is_valid_username_shape
validate_username username =
    if ltb (len username) 3 || ltb 16 (len username)
    then err username_length
    else if not (all is_allowed username)
    then err username_character
    else if not (is_valid_username_shape username)
    then err username_character
    else ok tt

-- The verbs, each with its short form.
pub data Verb : Type 0 where
  buys sells deposits withdraws prices balances pays lists queues cancels asks_status asks_help :
      Verb
  adds_item removes_item adds_currency removes_currency : Verb

abbrev pub is_verb : String → String → String → Bool
is_verb v long short = str_eq v long || str_eq v short

unfoldable pub verb_of : String → Option Verb
verb_of v =
    if is_verb v "buy" "b"
    then some buys
    else if is_verb v "sell" "s"
    then some sells
    else if is_verb v "deposit" "d"
    then some deposits
    else if is_verb v "withdraw" "w"
    then some withdraws
    else if is_verb v "price" "p"
    then some prices
    else if is_verb v "balance" "bal"
    then some balances
    else if str_eq v "pay"
    then some pays
    else if str_eq v "items"
    then some lists
    else if is_verb v "queue" "q"
    then some queues
    else if is_verb v "cancel" "c"
    then some cancels
    else if str_eq v "status"
    then some asks_status
    else if is_verb v "help" "h"
    then some asks_help
    else if is_verb v "additem" "ai"
    then some adds_item
    else if is_verb v "removeitem" "ri"
    then some removes_item
    else if is_verb v "addcurrency" "ac"
    then some adds_currency
    else if is_verb v "removecurrency" "rc"
    then some removes_currency
    else none

-- The arguments, which follow the verb.
module _ ⦃f : Float F64⦄ (parse_f64 : String → Option F64) where
  unfoldable pub parse_item_quantity : String → List String → Result (ItemId × ℕ) Rejection
  unfolding validate_item_name validate_quantity
  parse_item_quantity verb (List.◌∷◌ item (List.◌∷◌ quantity _)) =
      validate_item_name item >>= λ id. validate_quantity quantity >>= λ q. ok (id, q)
  parse_item_quantity verb (List.◌∷◌ _ List.[]) = err (usage verb)
  parse_item_quantity verb List.[] = err (usage verb)

  abbrev pub item_amount_within : Option F64 → Result F64 Rejection
  item_amount_within none = err amount_invalid
  item_amount_within (some amount) =
      if not (f.is_finite amount)
      then err amount_not_finite
      else if f.le amount f.nought
      then err amount_not_positive
      else if f.lt (f.of_i32 (pos 1000000)) amount
      then err amount_too_large
      else ok amount

  unfoldable pub parse_item_amount : String → List String → Result (ItemId × F64) Rejection
  unfolding validate_item_name
  parse_item_amount verb (List.◌∷◌ item (List.◌∷◌ amount _)) =
      validate_item_name item >>= λ id. item_amount_within (parse_f64 amount) >>= λ a. ok (id, a)
  parse_item_amount verb (List.◌∷◌ _ List.[]) = err (usage verb)
  parse_item_amount verb List.[] = err (usage verb)

  -- The amount of a deposit, a withdrawal or a payment, by its cap.
  abbrev pub amount_within : ℕ → Option F64 → Result F64 Rejection
  amount_within cap none = err amount_invalid
  amount_within cap (some amount) =
      if not (f.is_finite amount) || f.le amount f.nought
      then err amount_not_positive
      else if f.lt (f.of_i32 (pos cap)) amount
      then err amount_too_large
      else ok amount

  unfoldable pub parse_optional_amount : List String → Result (Option F64) Rejection
  parse_optional_amount List.[] = ok none
  parse_optional_amount (List.◌∷◌ amount _) =
      amount_within max_trade_diamonds (parse_f64 amount) >>= λ a. ok (some a)

  abbrev pub positive_quantity : Option ℕ → Result (Option ℕ) Rejection
  positive_quantity none = err quantity_invalid
  positive_quantity (some q) = if ltb 0 q then ok (some q) else err quantity_invalid

  abbrev pub price_quantity : List String → Result (Option ℕ) Rejection
  price_quantity List.[] = ok none
  price_quantity (List.◌∷◌ q _) = positive_quantity (parse_unsigned (2 ^ 32 - 1) q)

  unfoldable pub parse_price : List String → Result Command Rejection
  unfolding validate_item_name parse_unsigned
  parse_price List.[] = err (usage "price")
  parse_price (List.◌∷◌ item rest) =
      validate_item_name item >>= λ id. price_quantity rest >>= λ q. ok (price id q)

  unfoldable pub parse_balance : List String → Result Command Rejection
  unfolding validate_username
  parse_balance List.[] = ok (balance none)
  parse_balance (List.◌∷◌ name _) = validate_username name >>= λ _. ok (balance (some name))

  unfoldable pub parse_pay : List String → Result Command Rejection
  unfolding validate_username
  parse_pay (List.◌∷◌ name (List.◌∷◌ amount _)) = validate_username name >>= λ _.
      amount_within 1000000 (parse_f64 amount) >>= λ a. ok (pay name a)
  parse_pay (List.◌∷◌ _ List.[]) = err (usage "pay")
  parse_pay List.[] = err (usage "pay")

  abbrev pub or_one : Option ℕ → ℕ
  or_one none = 1
  or_one (some n) = max n 1

  unfoldable pub parse_page : List String → ℕ
  unfolding parse_unsigned
  parse_page List.[] = 1
  parse_page (List.◌∷◌ page _) = or_one (parse_unsigned (2 ^ 64 - 1) page)

  -- `trim_start_matches('#')`
  unfoldable pub without_hashes : String → String
  without_hashes [] = []
  without_hashes (c ∷ s) = let rest = without_hashes s in if code c == 35 then rest else c ∷ s

  abbrev pub order_of : Option ℕ → Result Command Rejection
  order_of none = err order_id_invalid
  order_of (some id) = ok (cancel id)

  unfoldable pub parse_cancel : List String → Result Command Rejection
  unfolding parse_unsigned without_hashes
  parse_cancel List.[] = err (usage "cancel")
  parse_cancel (List.◌∷◌ id _) = order_of (parse_unsigned (2 ^ 64 - 1) (without_hashes id))

  abbrev pub first : List String → Option String
  first List.[] = none
  first (List.◌∷◌ s _) = some s

  unfoldable pub parse_arguments : Verb → List String → Result Command Rejection
  unfolding parse_item_quantity parse_item_amount parse_optional_amount parse_price parse_balance
      parse_pay parse_page parse_cancel
  parse_arguments buys args = parse_item_quantity "buy" args >>= λ (i, q). ok (buy i q)
  parse_arguments sells args = parse_item_quantity "sell" args >>= λ (i, q). ok (sell i q)
  parse_arguments deposits args = parse_optional_amount args >>= λ a. ok (deposit a)
  parse_arguments withdraws args = parse_optional_amount args >>= λ a. ok (withdraw a)
  parse_arguments prices args = parse_price args
  parse_arguments balances args = parse_balance args
  parse_arguments pays args = parse_pay args
  parse_arguments lists args = ok (items (parse_page args))
  parse_arguments queues args = ok (queue (parse_page args))
  parse_arguments cancels args = parse_cancel args
  parse_arguments asks_status args = ok status
  parse_arguments asks_help args = ok (help (first args))
  parse_arguments adds_item args =
      parse_item_quantity "additem" args >>= λ (i, q). ok (add_item i q)
  parse_arguments removes_item args =
      parse_item_quantity "removeitem" args >>= λ (i, q). ok (remove_item i q)
  parse_arguments adds_currency args =
      parse_item_amount "addcurrency" args >>= λ (i, a). ok (add_currency i a)
  parse_arguments removes_currency args =
      parse_item_amount "removecurrency" args >>= λ (i, a). ok (remove_currency i a)

  abbrev pub parse_verb : String → List String → Option Verb → Result Command Rejection
  parse_verb v args none = err (unknown_command v)
  parse_verb v args (some verb) = parse_arguments verb args

  abbrev pub parse_parts : List String → Result Command Rejection
  parse_parts List.[] = err no_command
  parse_parts (List.◌∷◌ v args) = parse_verb v args (verb_of v)

  unfoldable pub parse_command : String → Result Command Rejection
  unfolding split_whitespace verb_of parse_arguments
  parse_command input = parse_parts (split_whitespace input)
