-- ===== src/Commands/Checked.antt =====
-- What the parser accepts: every command that it gives is checked.
use Prim.Native.Char.{code}
use Prim.Native.String.{len}
use cj_store.Prelude.{
  ℕ, ◌-◌, ◌^◌, ◌≤◌, ◌≡◌, refl, Bool, true, false, not, ◌||◌, Option, none, some, List, String,
  Result, ok, err, ◌>>=◌, if_split, ltb, leb, ◌==◌, arith,
}
use cj_store.Prelude.Int.{pos}
use cj_store.Float.{Float}
use cj_store.Types.{ItemId}
use cj_store.Messages.{F64}
use cj_store.ItemNames.{ItemIdError, is_canonical, is_allowed, all, is_blank}
use cj_store.ItemNames
use cj_store.ItemNames.Canonical.{new-canonical}
use cj_store.Shop.{max_trade_diamonds}
use cj_store.Commands.{
  Command, buy, sell, add_item, remove_item, deposit, withdraw, price, balance, help, pay, items,
  queue, cancel, status, add_currency, remove_currency, Rejection, item_invalid,
  max_transaction_quantity, within_limit, digits, unsigned, parse_unsigned, validate_item_name,
  quantity_within, validate_quantity, is_valid_username_shape, validate_username, Verb, buys, sells,
  deposits, withdraws, prices, balances, pays, lists, queues, cancels, asks_status, asks_help,
  adds_item, removes_item, adds_currency, removes_currency, verb_of, parse_item_quantity,
  item_amount_within, parse_item_amount, amount_within, parse_optional_amount, positive_quantity,
  price_quantity, parse_price, parse_balance, parse_pay, or_one, parse_page, order_of, parse_cancel,
  parse_arguments, parse_verb, parse_parts, parse_command, split_whitespace, without_hashes,
}

-- A result that is accepted satisfies `P`.
abbrev pub OnOk : {A : Type 0} → (A → Type 0) → Result A Rejection → Type 0
OnOk P (ok a) = P a
OnOk P (err _) = Unit

bind-OnOk :
    {A B : Type 0} (P : A → Type 0) (Q : B → Type 0) (r : Result A Rejection)
    (k : A → Result B Rejection)
    → OnOk P r
    → ((a : A) → P a → OnOk Q (k a))
    → OnOk Q (r >>= k)
bind-OnOk P Q (ok a) k p next = next a p
bind-OnOk P Q (err e) k p next = tt

abbrev pub IsQuantity : ℕ → Type 0
IsQuantity q = (1 ≤ q) × (q ≤ max_transaction_quantity)

abbrev pub IsItem : ItemId → Type 0
IsItem id = is_canonical id ≡ true

abbrev pub IsAmount : ⦃f : Float F64⦄ → ℕ → F64 → Type 0
IsAmount ⦃f⦄ cap amount =
    (f.is_finite amount ≡ true)
    × (f.le amount f.nought ≡ false)
    × (f.lt (f.of_i32 (pos cap)) amount ≡ false)

-- The arguments of a command are in their bounds.
abbrev pub IsChecked : ⦃f : Float F64⦄ → Command → Type 0
IsChecked (buy i q) = IsItem i × IsQuantity q
IsChecked (sell i q) = IsItem i × IsQuantity q
IsChecked (add_item i q) = IsItem i × IsQuantity q
IsChecked (remove_item i q) = IsItem i × IsQuantity q
IsChecked (deposit none) = Unit
IsChecked (deposit (some a)) = IsAmount max_trade_diamonds a
IsChecked (withdraw none) = Unit
IsChecked (withdraw (some a)) = IsAmount max_trade_diamonds a
IsChecked (price i none) = IsItem i
IsChecked (price i (some q)) = IsItem i × (1 ≤ q) × (q ≤ 2 ^ 32 - 1)
IsChecked (balance none) = Unit
IsChecked (balance (some name)) = is_valid_username_shape name ≡ true
IsChecked (help _) = Unit
IsChecked (pay name a) = (is_valid_username_shape name ≡ true) × IsAmount 1000000 a
IsChecked (items page) = (1 ≤ page) × (page ≤ 2 ^ 64 - 1)
IsChecked (queue page) = (1 ≤ page) × (page ≤ 2 ^ 64 - 1)
IsChecked (cancel id) = id ≤ 2 ^ 64 - 1
IsChecked status = Unit
IsChecked (add_currency i a) = IsItem i × IsAmount 1000000 a
IsChecked (remove_currency i a) = IsItem i × IsAmount 1000000 a

validate_item_name-IsItem : (item : String) → OnOk IsItem (validate_item_name item)
unfolding validate_item_name
validate_item_name-IsItem item =
    if_split (OnOk IsItem) (is_blank item) (λ _. tt)
      (λ _.
        if_split (OnOk IsItem) (not (all (λ c. is_allowed c || code c == 58) item)) (λ _. tt)
          (λ _. go (ItemNames.new item) refl))
  where
    go :
        (r : Result ItemId ItemIdError)
        → ItemNames.new item ≡ r
        → OnOk IsItem (elim r [ ok id ↦ ok id | err _ ↦ err item_invalid ])
    go (ok id) e = (new-canonical item id e).0
    go (err _) e = tt

validate_quantity-IsQuantity : (s : String) → OnOk IsQuantity (validate_quantity s)
unfolding validate_quantity
validate_quantity-IsQuantity s = go (parse_unsigned (2 ^ 32 - 1) s)
  where
    go : (x : Option ℕ) → OnOk IsQuantity (quantity_within x)
    go none = tt
    go (some q) =
        if_split (OnOk IsQuantity) (q == 0) (λ _. tt)
          (λ some_.
            if_split (OnOk IsQuantity) (ltb max_transaction_quantity q) (λ _. tt)
              (λ few. (ground (arith, some_), ground (arith, few))))

validate_username-shape :
    (name : String)
    → OnOk (λ (n : Unit {0}). is_valid_username_shape name ≡ true) (validate_username name)
unfolding validate_username
validate_username-shape name =
    let P = OnOk (λ (n : Unit {0}). is_valid_username_shape name ≡ true) in
    if_split P (ltb (len name) 3 || ltb 16 (len name)) (λ _. tt)
      (λ _.
        if_split P (not (all is_allowed name)) (λ _. tt)
          (λ _. if_split P (not (is_valid_username_shape name)) (λ _. tt) (λ h. ground (arith, h))))

-- A number that is read is within its limit.
abbrev OnSome : (ℕ → Type 0) → Option ℕ → Type 0
OnSome P none = Unit
OnSome P (some n) = P n

parse_unsigned-within : (limit : ℕ) (s : String) → OnSome (λ n. n ≤ limit) (parse_unsigned limit s)
unfolding parse_unsigned
parse_unsigned-within limit s =
    if_split (OnSome (λ n. n ≤ limit)) (is_blank (unsigned s)) (λ _. tt)
      (λ _. go (digits 0 (unsigned s)))
  where
    go : (x : Option ℕ) → OnSome (λ n. n ≤ limit) (within_limit limit x)
    go none = tt
    go (some n) =
        if_split (OnSome (λ n. n ≤ limit)) (leb n limit) (λ h. ground (arith, h)) (λ _. tt)

module _ ⦃f : Float F64⦄ (parse_f64 : String → Option F64) where
  amount_within-IsAmount :
      (cap : ℕ) (x : Option F64) → OnOk (IsAmount cap) (amount_within parse_f64 cap x)
  amount_within-IsAmount cap none = tt
  amount_within-IsAmount cap (some a) =
      if_split (OnOk (IsAmount cap)) (not (f.is_finite a) || f.le a f.nought) (λ _. tt)
        (λ fine.
          if_split (OnOk (IsAmount cap)) (f.lt (f.of_i32 (pos cap)) a) (λ _. tt)
            (λ low.
              let (finite, positive) = both (f.is_finite a) (f.le a f.nought) fine in
              (finite, positive, low)))
    where
      both : (b c : Bool) → (not b || c) ≡ false → (b ≡ true) × (c ≡ false)
      both b c h = (ground (arith, h), ground (arith, h))

  item_amount_within-IsAmount :
      (x : Option F64) → OnOk (IsAmount 1000000) (item_amount_within parse_f64 x)
  item_amount_within-IsAmount none = tt
  item_amount_within-IsAmount (some a) =
      let P = OnOk (IsAmount 1000000) in
      if_split P (not (f.is_finite a)) (λ _. tt)
        (λ fine.
          if_split P (f.le a f.nought) (λ _. tt)
            (λ positive.
              if_split P (f.lt (f.of_i32 (pos 1000000)) a) (λ _. tt)
                (λ low. (is_true (f.is_finite a) fine, positive, low))))
    where
      is_true : (b : Bool) → not b ≡ false → b ≡ true
      is_true b h = ground (arith, h)

  parse_item_quantity-checked :
      (verb : String) (args : List String)
      → OnOk
          (λ (x : ItemId × ℕ). IsItem x.0 × IsQuantity x.1)
          (parse_item_quantity parse_f64 verb args)
  unfolding parse_item_quantity
  parse_item_quantity-checked verb List.[] = tt
  parse_item_quantity-checked verb (List.◌∷◌ _ List.[]) = tt
  parse_item_quantity-checked verb (List.◌∷◌ item (List.◌∷◌ q _)) =
      let P = λ (x : ItemId × ℕ). IsItem x.0 × IsQuantity x.1 in
      bind-OnOk IsItem P (validate_item_name item) (λ id. validate_quantity q >>= λ n. ok (id, n))
        (validate_item_name-IsItem item)
        (λ id fine.
          bind-OnOk IsQuantity P (validate_quantity q) (λ n. ok (id, n))
            (validate_quantity-IsQuantity q) (λ n within. (fine, within)))

  parse_item_amount-checked :
      (verb : String) (args : List String)
      → OnOk
          (λ (x : ItemId × F64). IsItem x.0 × IsAmount 1000000 x.1)
          (parse_item_amount parse_f64 verb args)
  unfolding parse_item_amount
  parse_item_amount-checked verb List.[] = tt
  parse_item_amount-checked verb (List.◌∷◌ _ List.[]) = tt
  parse_item_amount-checked verb (List.◌∷◌ item (List.◌∷◌ amount _)) =
      let P = λ (x : ItemId × F64). IsItem x.0 × IsAmount 1000000 x.1 in
      bind-OnOk IsItem P (validate_item_name item)
        (λ id. item_amount_within parse_f64 (parse_f64 amount) >>= λ a. ok (id, a))
        (validate_item_name-IsItem item)
        (λ id fine.
          bind-OnOk (IsAmount 1000000) P (item_amount_within parse_f64 (parse_f64 amount))
            (λ a. ok (id, a)) (item_amount_within-IsAmount (parse_f64 amount))
            (λ a within. (fine, within)))

  -- An amount that may be left out.
  abbrev OnAmount : Option F64 → Type 0
  OnAmount none = Unit
  OnAmount (some a) = IsAmount max_trade_diamonds a

  parse_optional_amount-checked :
      (args : List String) → OnOk OnAmount (parse_optional_amount parse_f64 args)
  unfolding parse_optional_amount
  parse_optional_amount-checked List.[] = tt
  parse_optional_amount-checked (List.◌∷◌ amount _) =
      bind-OnOk (IsAmount max_trade_diamonds) OnAmount
        (amount_within parse_f64 max_trade_diamonds (parse_f64 amount)) (λ a. ok (some a))
        (amount_within-IsAmount max_trade_diamonds (parse_f64 amount)) (λ a within. within)

  parse_price-IsChecked : (args : List String) → OnOk IsChecked (parse_price parse_f64 args)
  unfolding parse_price
  parse_price-IsChecked List.[] = tt
  parse_price-IsChecked (List.◌∷◌ item rest) =
      bind-OnOk IsItem IsChecked (validate_item_name item)
        (λ id. price_quantity parse_f64 rest >>= λ q. ok (price id q))
        (validate_item_name-IsItem item) (λ id fine. priced id fine rest)
    where
      Within : Option ℕ → Type 0
      Within none = Unit
      Within (some q) = (1 ≤ q) × (q ≤ 2 ^ 32 - 1)

      positive :
          (x : Option ℕ)
          → OnSome (λ n. n ≤ 2 ^ 32 - 1) x
          → OnOk Within (positive_quantity parse_f64 x)
      positive none h = tt
      positive (some q) h =
          if_split (OnOk Within) (ltb 0 q) (λ some_. (ground (arith, some_), h)) (λ _. tt)

      quantity : (rest : List String) → OnOk Within (price_quantity parse_f64 rest)
      quantity List.[] = tt
      quantity (List.◌∷◌ q _) =
          positive (parse_unsigned (2 ^ 32 - 1) q) (parse_unsigned-within (2 ^ 32 - 1) q)

      with_quantity : (id : ItemId) → IsItem id → (x : Option ℕ) → Within x → IsChecked (price id x)
      with_quantity id fine none h = fine
      with_quantity id fine (some q) h = (fine, h.0, h.1)

      priced :
          (id : ItemId)
          → IsItem id
          → (rest : List String)
          → OnOk IsChecked (price_quantity parse_f64 rest >>= λ q. ok (price id q))
      priced id fine rest =
          bind-OnOk Within IsChecked (price_quantity parse_f64 rest) (λ q. ok (price id q))
            (quantity rest) (λ q h. with_quantity id fine q h)

  parse_balance-IsChecked : (args : List String) → OnOk IsChecked (parse_balance parse_f64 args)
  unfolding parse_balance
  parse_balance-IsChecked List.[] = tt
  parse_balance-IsChecked (List.◌∷◌ name _) =
      bind-OnOk (λ (n : Unit {0}). is_valid_username_shape name ≡ true) IsChecked
        (validate_username name) (λ _. ok (balance (some name))) (validate_username-shape name)
        (λ n shape. shape)

  parse_pay-IsChecked : (args : List String) → OnOk IsChecked (parse_pay parse_f64 args)
  unfolding parse_pay
  parse_pay-IsChecked List.[] = tt
  parse_pay-IsChecked (List.◌∷◌ _ List.[]) = tt
  parse_pay-IsChecked (List.◌∷◌ name (List.◌∷◌ amount _)) =
      bind-OnOk (λ (n : Unit {0}). is_valid_username_shape name ≡ true) IsChecked
        (validate_username name)
        (λ _. amount_within parse_f64 1000000 (parse_f64 amount) >>= λ a. ok (pay name a))
        (validate_username-shape name)
        (λ n shape.
          bind-OnOk (IsAmount 1000000) IsChecked
            (amount_within parse_f64 1000000 (parse_f64 amount)) (λ a. ok (pay name a))
            (amount_within-IsAmount 1000000 (parse_f64 amount)) (λ a within. (shape, within)))

  parse_page-within :
      (args : List String)
      → (1 ≤ parse_page parse_f64 args) × (parse_page parse_f64 args ≤ 2 ^ 64 - 1)
  unfolding parse_page
  parse_page-within List.[] = (omega arith, omega arith)
  parse_page-within (List.◌∷◌ page _) =
      go (parse_unsigned (2 ^ 64 - 1) page) (parse_unsigned-within (2 ^ 64 - 1) page)
    where
      go :
          (x : Option ℕ)
          → OnSome (λ n. n ≤ 2 ^ 64 - 1) x
          → (1 ≤ or_one parse_f64 x) × (or_one parse_f64 x ≤ 2 ^ 64 - 1)
      go none h = (omega arith, omega arith)
      go (some n) h = (omega (arith, h), omega (arith, h))

  parse_cancel-IsChecked : (args : List String) → OnOk IsChecked (parse_cancel parse_f64 args)
  unfolding parse_cancel
  parse_cancel-IsChecked List.[] = tt
  parse_cancel-IsChecked (List.◌∷◌ id _) =
      let s = without_hashes parse_f64 id in
      go (parse_unsigned (2 ^ 64 - 1) s) (parse_unsigned-within (2 ^ 64 - 1) s)
    where
      go : (x : Option ℕ) → OnSome (λ n. n ≤ 2 ^ 64 - 1) x → OnOk IsChecked (order_of parse_f64 x)
      go none h = tt
      go (some n) h = h

  -- A command of an item and a quantity, or of an item and an amount, or of an amount alone.
  quantity_command :
      (verb : String) (args : List String) (c : ItemId → ℕ → Command)
      → ((i : ItemId) (q : ℕ) → IsItem i → IsQuantity q → IsChecked (c i q))
      → OnOk IsChecked (parse_item_quantity parse_f64 verb args >>= λ (i, q). ok (c i q))
  quantity_command verb args c checked =
      bind-OnOk (λ (x : ItemId × ℕ). IsItem x.0 × IsQuantity x.1) IsChecked
        (parse_item_quantity parse_f64 verb args) (λ (i, q). ok (c i q))
        (parse_item_quantity-checked verb args) (λ x h. checked x.0 x.1 h.0 h.1)

  amount_command :
      (verb : String) (args : List String) (c : ItemId → F64 → Command)
      → ((i : ItemId) (a : F64) → IsItem i → IsAmount 1000000 a → IsChecked (c i a))
      → OnOk IsChecked (parse_item_amount parse_f64 verb args >>= λ (i, a). ok (c i a))
  amount_command verb args c checked =
      bind-OnOk (λ (x : ItemId × F64). IsItem x.0 × IsAmount 1000000 x.1) IsChecked
        (parse_item_amount parse_f64 verb args) (λ (i, a). ok (c i a))
        (parse_item_amount-checked verb args) (λ x h. checked x.0 x.1 h.0 h.1)

  parse_arguments-IsChecked :
      (verb : Verb) (args : List String) → OnOk IsChecked (parse_arguments parse_f64 verb args)
  unfolding parse_arguments
  parse_arguments-IsChecked buys args = quantity_command "buy" args buy (λ i q a b. (a, b))
  parse_arguments-IsChecked sells args = quantity_command "sell" args sell (λ i q a b. (a, b))
  parse_arguments-IsChecked deposits args =
      bind-OnOk OnAmount IsChecked (parse_optional_amount parse_f64 args) (λ a. ok (deposit a))
        (parse_optional_amount-checked args) go
    where
      go : (x : Option F64) → OnAmount x → IsChecked (deposit x)
      go none h = tt
      go (some a) h = h
  parse_arguments-IsChecked withdraws args =
      bind-OnOk OnAmount IsChecked (parse_optional_amount parse_f64 args) (λ a. ok (withdraw a))
        (parse_optional_amount-checked args) go
    where
      go : (x : Option F64) → OnAmount x → IsChecked (withdraw x)
      go none h = tt
      go (some a) h = h
  parse_arguments-IsChecked prices args = parse_price-IsChecked args
  parse_arguments-IsChecked balances args = parse_balance-IsChecked args
  parse_arguments-IsChecked pays args = parse_pay-IsChecked args
  parse_arguments-IsChecked lists args = parse_page-within args
  parse_arguments-IsChecked queues args = parse_page-within args
  parse_arguments-IsChecked cancels args = parse_cancel-IsChecked args
  parse_arguments-IsChecked asks_status args = tt
  parse_arguments-IsChecked asks_help args = tt
  parse_arguments-IsChecked adds_item args =
      quantity_command "additem" args add_item (λ i q a b. (a, b))
  parse_arguments-IsChecked removes_item args =
      quantity_command "removeitem" args remove_item (λ i q a b. (a, b))
  parse_arguments-IsChecked adds_currency args =
      amount_command "addcurrency" args add_currency (λ i q a b. (a, b))
  parse_arguments-IsChecked removes_currency args =
      amount_command "removecurrency" args remove_currency (λ i q a b. (a, b))

  -- Every command that the parser gives is checked, whatever the player wrote: an item is in its
  -- normal form, a quantity of a trade is from 1 to 1,000,000, an amount is finite, positive and not
  -- above its cap (a full trade for deposits and withdrawals, 1,000,000 for the others), a player's
  -- name has the shape of one, a page is 1 at least, and a number fits its machine integer.
  pub parse_command-IsChecked : (input : String) → OnOk IsChecked (parse_command parse_f64 input)
  unfolding parse_command
  parse_command-IsChecked input = go (split_whitespace input)
    where
      verb_given :
          (v : String) (args : List String) (x : Option Verb)
          → OnOk IsChecked (parse_verb parse_f64 v args x)
      verb_given v args none = tt
      verb_given v args (some verb) = parse_arguments-IsChecked verb args

      go : (parts : List String) → OnOk IsChecked (parse_parts parse_f64 parts)
      go List.[] = tt
      go (List.◌∷◌ v args) = verb_given v args (verb_of v)
