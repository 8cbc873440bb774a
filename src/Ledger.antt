-- ===== src/Ledger.antt =====
-- src/types/user.rs, src/types/pair.rs and src/store/state.rs: the ledger of users and pairs, and its
-- audit. A hash map is an association list; an `f64` is over any operations. An issue stands as what
-- its text is made from.
pub mod Users
pub mod Gate
pub mod Repair
pub mod Trim
use cj_store.Prelude.{
  ℕ, ◌+◌, ◌*◌, Bool, true, false, not, ◌&&◌, ◌||◌, Option, none, some, List, [], ◌∷◌, ◌++◌, String,
  Result, ok, err, if◌then◌else◌, str_eq, length, ◌==◌,
}
use cj_store.Prelude.Int.{ℤ, pos, negsuc, leb_ℤ, ltb_ℤ, eq_ℤ}
use cj_store.Float.{Float}
use cj_store.Types.{ItemId, is_empty, Chest, Node, Storage, double_chest_slots, shulker_box_slots}
use cj_store.Storage.{total_item_amount}
use cj_store.Storage.Deposit.{shulker_capacity_for_stack_size}

pub record User {ℓ} (W : Type ℓ) : Type ℓ where
  pub uuid : String
  pub username : String
  pub balance : W
  pub operator : Bool

pub record Pair {ℓ} (W : Type ℓ) : Type ℓ where
  pub item : ItemId
  pub stack_size : ℤ
  pub item_stock : ℤ
  pub currency_stock : W

abbrev pub Map {ℓ} : Type ℓ → Type ℓ
Map A = List (String × A)

unfoldable pub lookup {ℓ} : {A : Type ℓ} → String → Map A → Option A
lookup k [] = none
lookup k ((i, a) ∷ rows) = let rest = lookup k rows in if str_eq i k then some a else rest

pub record Books {ℓ} (W : Type ℓ) : Type ℓ where
  pub users : Map (User W)
  pub pairs : Map (Pair W)
  pub storage : Storage

pub data Issue {ℓ} (W : Type ℓ) : Type ℓ where
  non_finite_balance : String → Issue W
  negative_balance : String → W → Issue W
  wrong_length : ℤ → ℕ → Issue W
  invalid_amount : ℤ → ℕ → ℤ → Issue W
  over_capacity : ℤ → ItemId → ℕ → ℤ → ℤ → Issue W
  negative_item_stock : ItemId → ℤ → Issue W
  negative_currency_stock : ItemId → W → Issue W
  stock_drift : ItemId → ℤ → ℤ → Issue W

abbrev pub default_shulker_capacity : ℤ
default_shulker_capacity = pos (27 * 64)

abbrev pub issue_if {ℓ} : {W : Type ℓ} → Bool → Issue W → List (Issue W)
issue_if b i = if b then i ∷ [] else []

-- The slots of a chest from an index on. The amount -1 stands for a slot that was not looked at.
unfoldable pub slot_issues {ℓ} : {W : Type ℓ} → ℤ → Chest → ℕ → List ℤ → List (Issue W)
slot_issues capacity c i [] = []
slot_issues capacity c i (a ∷ more) =
    issue_if (ltb_ℤ a (negsuc 0)) (invalid_amount c.id i a)
    ++ issue_if (ltb_ℤ capacity a) (over_capacity c.id c.item i capacity a)
    ++ slot_issues capacity c (i + 1) more

unfoldable pub chest_issues {ℓ} : {W : Type ℓ} → ℤ → Chest → List (Issue W)
unfolding slot_issues
chest_issues capacity c =
    issue_if (not (length c.amounts == double_chest_slots)) (wrong_length c.id (length c.amounts))
    ++ slot_issues capacity c 0 c.amounts

abbrev pub capacity_of {ℓ} : {W : Type ℓ} → Option (Pair W) → ℤ
capacity_of none = default_shulker_capacity
capacity_of (some p) = shulker_capacity_for_stack_size p.stack_size

-- The chests of one item.
unfoldable pub item_chests_issues {ℓ} : {W : Type ℓ} → ItemId → ℤ → List Chest → List (Issue W)
unfolding chest_issues
item_chests_issues item capacity [] = []
item_chests_issues item capacity (c ∷ cs) =
    (if not (str_eq c.item item) then [] else chest_issues capacity c)
    ++ item_chests_issues item capacity cs

unfoldable pub item_issues {ℓ} : {W : Type ℓ} → ItemId → ℤ → List Node → List (Issue W)
unfolding item_chests_issues
item_issues item capacity [] = []
item_issues item capacity (n ∷ ns) =
    item_chests_issues item capacity n.chests ++ item_issues item capacity ns

module _ {ℓ} {W : Type ℓ} ⦃f : Float W⦄ where
  unfoldable pub user_issues : Map (User W) → List (Issue W)
  user_issues [] = []
  user_issues ((_, u) ∷ us) =
      issue_if (not (f.is_finite u.balance)) (non_finite_balance u.username)
      ++ issue_if (f.lt u.balance f.nought) (negative_balance u.username u.balance)
      ++ user_issues us

  unfoldable pub chests_issues : Map (Pair W) → List Chest → List (Issue W)
  unfolding chest_issues lookup
  chests_issues pairs [] = []
  chests_issues pairs (c ∷ cs) =
      let capacity =
        if is_empty c.item then default_shulker_capacity else capacity_of (lookup c.item pairs) in
      chest_issues capacity c ++ chests_issues pairs cs

  unfoldable pub nodes_issues : Map (Pair W) → List Node → List (Issue W)
  unfolding chests_issues
  nodes_issues pairs [] = []
  nodes_issues pairs (n ∷ ns) = chests_issues pairs n.chests ++ nodes_issues pairs ns

  -- One pair of the audit: its issues, whether it is repaired, and the pair after it.
  unfoldable pub stock_issues : Pair W → List (Issue W)
  stock_issues p =
      issue_if (ltb_ℤ p.item_stock (pos 0)) (negative_item_stock p.item p.item_stock)
      ++ issue_if (f.lt p.currency_stock f.nought) (negative_currency_stock p.item p.currency_stock)

  abbrev pub has_drift : Storage → Pair W → Bool
  has_drift s p = not (eq_ℤ p.item_stock (total_item_amount p.item s))

  abbrev pub drift_issue : Storage → Pair W → Issue W
  drift_issue s p = stock_drift p.item p.item_stock (total_item_amount p.item s)

  unfoldable pub audit_pair : Bool → Storage → Pair W → List (Issue W) × Bool × Pair W
  unfolding stock_issues total_item_amount
  audit_pair repair s p =
      let fixed : Pair W = record p { item_stock = total_item_amount p.item s } in
      if not (has_drift s p)
      then (stock_issues p, false, p)
      else if repair
      then (stock_issues p, true, fixed)
      else (stock_issues p ++ drift_issue s p ∷ [], false, p)

  unfoldable pub audit_pairs : Bool → Storage → Map (Pair W) → List (Issue W) × Bool × Map (Pair W)
  unfolding audit_pair
  audit_pairs repair s [] = ([], false, [])
  audit_pairs repair s ((k, p) ∷ ps) =
      let (issues, fixed, p') = audit_pair repair s p in
      let (issues', fixed', ps') = audit_pairs repair s ps in
      (issues ++ issues', fixed || fixed', (k, p') ∷ ps')

  -- The issues, `repair_applied`, and the books after the audit.
  unfoldable pub audit_state : Bool → Books W → List (Issue W) × Bool × Books W
  unfolding user_issues nodes_issues audit_pairs
  audit_state repair b =
      let (issues, fixed, pairs) = audit_pairs repair b.storage b.pairs in
      (
        user_issues b.users ++ nodes_issues b.pairs b.storage.nodes ++ issues,
        fixed,
        record b { pairs = pairs },
      )

  abbrev pub refuse_issues : List (Issue W) → Result (Unit {0}) (List (Issue W))
  refuse_issues [] = ok tt
  refuse_issues (i ∷ is) = err (i ∷ is)

  unfoldable pub assert_invariants : Bool → Books W → Result (Unit {0}) (List (Issue W)) × Books W
  unfolding audit_state
  assert_invariants repair b =
      let (issues, _, b') = audit_state repair b in (refuse_issues issues, b')

  -- The three parts of the gate before a trade.
  abbrev pub balance_issues : Option (User W) → List (Issue W)
  balance_issues none = []
  balance_issues (some u) =
      if not (f.is_finite u.balance)
      then non_finite_balance u.username ∷ []
      else issue_if (f.lt u.balance f.nought) (negative_balance u.username u.balance)

  abbrev pub pair_issues : Storage → Option (Pair W) → List (Issue W)
  pair_issues s none = []
  pair_issues s (some p) = stock_issues p ++ issue_if (has_drift s p) (drift_issue s p)

  -- The audit of everything is only logged here.
  unfoldable pub assert_tradeable : ItemId → String → Books W → Result (Unit {0}) (List (Issue W))
  unfolding lookup stock_issues total_item_amount item_issues
  assert_tradeable item user_uuid b = refuse_issues (
      balance_issues (lookup user_uuid b.users)
      ++ pair_issues b.storage (lookup item b.pairs)
      ++ item_issues item (capacity_of (lookup item b.pairs)) b.storage.nodes)
