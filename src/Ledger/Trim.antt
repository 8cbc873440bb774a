-- ===== src/Ledger/Trim.antt =====
-- src/store/state.rs: `trim_in_memory_to_caps`, which keeps the records in memory below their caps.
use cj_store.Prelude.{
  ℕ, zero, suc, ◌+◌, ◌-◌, ◌≤◌, ◌≡◌, refl, ap, ap₂, sym, ◌∙◌, false, List, [], ◌∷◌, if◌then◌else◌,
  ltb, length, drop, Bool-cases, inl, inr, length-drop, arith,
}

-- Trades from `saved_trades_count` on are not on disk yet.
pub record Records (A B : Type 0) : Type 0 where
  pub orders : List A
  pub trades : List B
  pub saved_trades_count : ℕ

-- How many entries are too many.
abbrev excess : {A : Type 0} → ℕ → List A → ℕ
excess cap xs = if ltb cap (length xs) then length xs - cap else 0

abbrev trim_orders : {A B : Type 0} → ℕ → Records A B → Records A B
trim_orders cap r =
    if ltb cap (length r.orders)
    then record r { orders = drop (length r.orders - cap) r.orders }
    else r

abbrev trim_trades : {A B : Type 0} → ℕ → Records A B → Records A B
trim_trades cap r =
    if ltb cap (length r.trades)
    then record r {
      trades = drop (length r.trades - cap) r.trades;
      saved_trades_count = r.saved_trades_count - (length r.trades - cap);
    }
    else r

unfoldable pub trim_in_memory_to_caps : {A B : Type 0} → ℕ → ℕ → Records A B → Records A B
trim_in_memory_to_caps max_orders max_trades r = trim_trades max_trades (trim_orders max_orders r)

-- The trades that the next save has to write.
abbrev unsaved : {A B : Type 0} → Records A B → List B
unsaved r = drop r.saved_trades_count r.trades

drop-suc :
    {A : Type 0} (m n : ℕ) (x : A) (xs : List A) → drop (suc m + n) (x ∷ xs) ≡ drop (m + n) xs
drop-suc m n x xs = ap (λ k. drop k (x ∷ xs)) (suc_left m n)
  where
    suc_left : (m n : ℕ) → suc m + n ≡ suc (m + n)
    suc_left m n = omega arith

drop-drop : {A : Type 0} (m n : ℕ) (xs : List A) → drop n (drop m xs) ≡ drop (m + n) xs
drop-drop zero n xs = ap (λ k. drop k xs) (none_first n)
  where
    none_first : (n : ℕ) → n ≡ 0 + n
    none_first n = omega arith
drop-drop {A = A} (suc m) n [] = drop_nil n ∙ sym (drop_nil (suc m + n))
  where
    drop_nil : (k : ℕ) → ◌≡◌ {A = List A} (drop k []) []
    drop_nil zero = refl
    drop_nil (suc k) = refl
drop-drop (suc m) n (x ∷ xs) = drop-drop m n xs ∙ sym (drop-suc m n x xs)

-- What a trim leaves: both lists are at their caps at most, by the loss of the oldest entries alone,
-- and of the trades to be written only those are lost that are over the cap themselves.
abbrev pub Trims : {A B : Type 0} → ℕ → ℕ → Records A B → Records A B → Type 0
Trims max_orders max_trades r r' =
    (length r'.orders ≤ max_orders)
    × (length r'.trades ≤ max_trades)
    × (r'.orders ≡ drop (excess max_orders r.orders) r.orders)
    × (r'.trades ≡ drop (excess max_trades r.trades) r.trades)
    × (unsaved r' ≡ drop (excess max_trades r.trades - r.saved_trades_count) (unsaved r))

no_excess : (n : ℕ) → 0 ≡ 0 - n
no_excess n = omega arith

fits : (m n : ℕ) → ltb m n ≡ false → n ≤ m
fits m n h = ground (arith, h)

either_cursor : (d n : ℕ) → d + (n - d) ≡ n + (d - n)
either_cursor d n = omega arith

orders_trimmed :
    {A B : Type 0} (cap : ℕ) (r : Records A B)
    → let r' = trim_orders cap r in
      (length r'.orders ≤ cap)
      × (r'.orders ≡ drop (excess cap r.orders) r.orders)
      × (r'.trades ≡ r.trades)
      × (r'.saved_trades_count ≡ r.saved_trades_count)
orders_trimmed cap r = elim (Bool-cases (ltb cap (length r.orders))) [
  | inl over ↦
      rw over (omega (arith, length-drop (length r.orders - cap) r.orders), refl, refl, refl)
  | inr within ↦ rw within (fits cap (length r.orders) within, refl, refl, refl)
]

trades_trimmed :
    {A B : Type 0} (cap : ℕ) (r : Records A B)
    → let r' = trim_trades cap r in
      (length r'.trades ≤ cap)
      × (r'.orders ≡ r.orders)
      × (r'.trades ≡ drop (excess cap r.trades) r.trades)
      × (unsaved r' ≡ drop (excess cap r.trades - r.saved_trades_count) (unsaved r))
trades_trimmed cap r = elim (Bool-cases (ltb cap (length r.trades))) [
  | inl over ↦
      let d = length r.trades - cap in
      rw over (
        omega (arith, length-drop d r.trades),
        refl,
        refl,
        drop-drop d (r.saved_trades_count - d) r.trades
            ∙ ap (λ k. drop k r.trades) (either_cursor d r.saved_trades_count)
            ∙ sym (drop-drop r.saved_trades_count (d - r.saved_trades_count) r.trades),
      )
  | inr within ↦ rw within (
    fits cap (length r.trades) within,
    refl,
    refl,
    ap (λ k. drop k (unsaved r)) (no_excess r.saved_trades_count),
  )
]

-- The trim before a save: both lists are at their caps at most, by the loss of their oldest entries
-- alone, and of the trades that the save has to write only those are lost that are over the cap.
pub trim_in_memory_to_caps-Trims :
    {A B : Type 0} (max_orders max_trades : ℕ) (r : Records A B)
    → Trims max_orders max_trades r (trim_in_memory_to_caps max_orders max_trades r)
unfolding trim_in_memory_to_caps
trim_in_memory_to_caps-Trims max_orders max_trades r =
    let r1 = trim_orders max_orders r in
    let (a, b, c, d) = orders_trimmed max_orders r in
    let (x, y, z, w) = trades_trimmed max_trades r1 in
    (
      rw y a,
      x,
      y ∙ b,
      z ∙ ap (λ xs. drop (excess max_trades xs) xs) c,
      w ∙ ap₂ (λ xs n. drop (excess max_trades xs - n) (drop n xs)) c d,
    )
