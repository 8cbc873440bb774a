-- ===== src/Ledger/Gate.antt =====
-- The gate before a trade: what it lets pass.
use cj_store.Prelude.{
  ℕ, ◌+◌, ◌≡◌, ◌↔◌, refl, Bool, true, false, not, Option, none, some, List, [], ◌∷◌, ◌++◌, String,
  ok, if◌then◌else◌, str_eq, length, ◌==◌, ==_iff, All,
}
use cj_store.Prelude.Int.{ℤ, pos, negsuc, ltb_ℤ, eq_ℤ_iff}
use cj_store.Float.{Float}
use cj_store.Types.{ItemId, Chest, Node, Storage}
use cj_store.Storage.{total_item_amount}
use cj_store.Ledger.{
  User, Pair, Books, Issue, non_finite_balance, negative_balance, negative_item_stock,
  negative_currency_stock, lookup, issue_if, slot_issues, chest_issues, capacity_of, stock_issues,
  has_drift, drift_issue, refuse_issues, balance_issues, pair_issues, item_chests_issues,
  item_issues, assert_tradeable,
}

-- Nothing of two lists together is nothing of both.
append-nil_both {ℓ κ} :
    {A : Type ℓ} {P Q : Type κ} {xs ys : List A}
    → (xs ≡ []) ↔ P
    → (ys ≡ []) ↔ Q
    → (xs ++ ys ≡ []) ↔ (P × Q)
append-nil_both {xs = []} (f, g) (h, k) = (λ e. (f refl, h e), λ (p, q). k q)
append-nil_both {xs = x ∷ xs} (f, g) h = (λ e. absurd (cc e), λ (p, q). absurd (cc (g p)))

issue_if-nil {ℓ} : {W : Type ℓ} (b : Bool) (i : Issue W) → (issue_if b i ≡ []) ↔ (b ≡ false)
issue_if-nil true i = (λ e. absurd (cc e), λ e. absurd (cc e))
issue_if-nil false i = (λ _. refl, λ _. refl)

-- A slot is not looked at, or holds no more than fits.
abbrev pub SlotFine : ℤ → ℤ → Type 0
SlotFine capacity a = (ltb_ℤ a (negsuc 0) ≡ false) × (ltb_ℤ capacity a ≡ false)

abbrev pub ChestFine : ℤ → Chest → Type 0
ChestFine capacity c = (length c.amounts ≡ 54) × All (SlotFine capacity) c.amounts

slot_issues-nil {ℓ} :
    {W : Type ℓ} (capacity : ℤ) (c : Chest) (i : ℕ) (xs : List ℤ)
    → (slot_issues {W = W} capacity c i xs ≡ []) ↔ All (SlotFine capacity) xs
unfolding slot_issues
slot_issues-nil capacity c i [] = (λ _. tt, λ _. refl)
slot_issues-nil capacity c i (a ∷ xs) =
    append-nil_both
      (append-nil_both (issue_if-nil (ltb_ℤ a (negsuc 0)) _) (issue_if-nil (ltb_ℤ capacity a) _))
      (slot_issues-nil capacity c (i + 1) xs)

then_iff {ℓ κ ι} : {A : Type ℓ} {B : Type κ} {C : Type ι} → A ↔ B → B ↔ C → A ↔ C
then_iff (f, g) (h, k) = (λ a. h (f a), λ c. g (k c))

not-false_iff : (b : Bool) → (not b ≡ false) ↔ (b ≡ true)
not-false_iff true = (λ _. refl, λ _. refl)
not-false_iff false = (λ e. absurd (cc e), λ e. absurd (cc e))

chest_issues-nil {ℓ} :
    {W : Type ℓ} (capacity : ℤ) (c : Chest)
    → (chest_issues {W = W} capacity c ≡ []) ↔ ChestFine capacity c
unfolding chest_issues
chest_issues-nil capacity c =
    append-nil_both
      (then_iff (issue_if-nil (not (length c.amounts == 54)) _)
        (then_iff (not-false_iff _) (==_iff (length c.amounts) 54)))
      (slot_issues-nil capacity c 0 c.amounts)

-- The chests of the item.
abbrev pub ItemChestFine : ItemId → ℤ → Chest → Type 0
ItemChestFine item capacity c = str_eq c.item item ≡ true → ChestFine capacity c

item_chest-nil {ℓ} :
    {W : Type ℓ} (item : ItemId) (capacity : ℤ) (c : Chest)
    → ((if not (str_eq c.item item) then [] else chest_issues {W = W} capacity c) ≡ [])
      ↔ ItemChestFine item capacity c
item_chest-nil {W = W} item capacity c = go (str_eq c.item item) refl
  where
    go :
        (b : Bool)
        → b ≡ str_eq c.item item
        → ((if not b then [] else chest_issues {W = W} capacity c) ≡ [])
          ↔ (b ≡ true → ChestFine capacity c)
    go true e =
        let (to, from) = chest_issues-nil {W = W} capacity c in (λ h _. to h, λ h. from (h refl))
    go false e = (λ _ h. absurd (cc h), λ _. refl)

item_chests-nil {ℓ} :
    {W : Type ℓ} (item : ItemId) (capacity : ℤ) (cs : List Chest)
    → (item_chests_issues {W = W} item capacity cs ≡ []) ↔ All (ItemChestFine item capacity) cs
unfolding item_chests_issues
item_chests-nil item capacity [] = (λ _. tt, λ _. refl)
item_chests-nil item capacity (c ∷ cs) =
    append-nil_both (item_chest-nil item capacity c) (item_chests-nil item capacity cs)

item_nodes-nil {ℓ} :
    {W : Type ℓ} (item : ItemId) (capacity : ℤ) (ns : List Node)
    → (item_issues {W = W} item capacity ns ≡ [])
      ↔ All (λ n. All (ItemChestFine item capacity) n.chests) ns
unfolding item_issues
item_nodes-nil item capacity [] = (λ _. tt, λ _. refl)
item_nodes-nil item capacity (n ∷ ns) =
    append-nil_both (item_chests-nil item capacity n.chests) (item_nodes-nil item capacity ns)

module _ {ℓ} {W : Type ℓ} ⦃f : Float W⦄ where
  -- The balance is a number that is not negative.
  abbrev pub UserFine : Option (User W) → Type 0
  UserFine none = Unit
  UserFine (some u) = (f.is_finite u.balance ≡ true) × (f.lt u.balance f.nought ≡ false)

  -- The stocks are not negative, and the cached one is what the chests hold.
  abbrev pub PairFine : Storage → Option (Pair W) → Type 0
  PairFine s none = Unit
  PairFine s (some p) =
      (ltb_ℤ p.item_stock (pos 0) ≡ false)
      × (f.lt p.currency_stock f.nought ≡ false)
      × (p.item_stock ≡ total_item_amount p.item s)

  user-nil : (u : Option (User W)) → (balance_issues u ≡ []) ↔ UserFine u
  user-nil none = (λ _. tt, λ _. refl)
  user-nil (some u) = go (f.is_finite u.balance)
    where
      go :
          (b : Bool)
          → ((if not b
                then non_finite_balance u.username ∷ []
                else issue_if (f.lt u.balance f.nought) (negative_balance u.username u.balance))
              ≡ [])
            ↔ ((b ≡ true) × (f.lt u.balance f.nought ≡ false))
      go true =
          let (to, from) =
            issue_if-nil (f.lt u.balance f.nought) (negative_balance u.username u.balance) in
          (λ h. (refl, to h), λ (_, h). from h)
      go false = (λ h. absurd (cc h), λ (h, _). absurd (cc h))

  pair-nil : (s : Storage) (p : Option (Pair W)) → (pair_issues s p ≡ []) ↔ PairFine s p
  unfolding stock_issues
  pair-nil s none = (λ _. tt, λ _. refl)
  pair-nil s (some p) =
      let (to, from) =
        append-nil_both
          (append-nil_both
            (issue_if-nil (ltb_ℤ p.item_stock (pos 0)) (negative_item_stock p.item p.item_stock))
            (issue_if-nil (f.lt p.currency_stock f.nought)
              (negative_currency_stock p.item p.currency_stock)))
          (then_iff (issue_if-nil (has_drift s p) (drift_issue s p))
            (then_iff (not-false_iff _) (eq_ℤ_iff p.item_stock (total_item_amount p.item s)))) in
      (λ h. let ((a, b), c) = to h in (a, b, c), λ (a, b, c). from ((a, b), c))

  refuse-ok : (is : List (Issue W)) → (refuse_issues is ≡ ok tt) ↔ (is ≡ [])
  refuse-ok [] = (λ _. refl, λ _. refl)
  refuse-ok (i ∷ is) = (λ e. absurd (cc e), λ e. absurd (cc e))

  -- The gate lets a trade pass just when the user's balance is finite and not negative, the pair's
  -- stocks are not negative and its cached stock is what the chests hold, and every chest of the item
  -- has its 54 slots with no more in each than fits. Whatever is wrong with other users, pairs and
  -- chests does not stop it.
  pub assert_tradeable-ok :
      (item : ItemId) (user_uuid : String) (b : Books W)
      → (assert_tradeable item user_uuid b ≡ ok tt) ↔ (
          UserFine (lookup user_uuid b.users)
          × PairFine b.storage (lookup item b.pairs)
          × All
              (λ n. All (ItemChestFine item (capacity_of (lookup item b.pairs))) n.chests)
              b.storage.nodes)
  unfolding assert_tradeable
  assert_tradeable-ok item user_uuid b =
      let (to, from) = then_iff (refuse-ok _) (
        append-nil_both
          (append-nil_both (user-nil (lookup user_uuid b.users))
            (pair-nil b.storage (lookup item b.pairs)))
          (item_nodes-nil item (capacity_of (lookup item b.pairs)) b.storage.nodes)) in
      (λ h. let ((x, y), z) = to h in (x, y, z), λ (x, y, z). from ((x, y), z))
