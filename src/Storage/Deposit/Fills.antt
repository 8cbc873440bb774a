-- ===== src/Storage/Deposit/Fills.antt =====
-- A deposit into the slots of one chest.
use cj_store.Prelude.{
  ℕ, zero, suc, ◌+◌, ◌-◌, ◌≤◌, ◌<◌, ◌≡◌, ◌∷◌, [], List, false, min, refl, ap, ◌∙◌, ◌⊎◌, inl, inr,
  All, arith, length,
}
use cj_store.Prelude.Int.{
  ℤ, pos, negsuc, ◌+ℤ◌, ◌-ℤ◌, min_ℤ, leb_ℤ, ltb_ℤ, pos_part, min_ℤ-pos, -ℤ-pos, +ℤ-pos, leb_ℤ-suc,
}
use cj_store.Storage.{stock}
use cj_store.Storage.Deposit.{deposit_slots}

-- What still fits into the slots; a negative amount marks a slot that is not used.
abbrev pub room : ℕ → List ℤ → ℕ
room capacity [] = 0
room capacity (pos n ∷ xs) = (capacity - n) + room capacity xs
room capacity (negsuc n ∷ xs) = room capacity xs

-- No slot holds more than a shulker's capacity.
abbrev pub Fits : ℕ → List ℤ → Type 0
Fits capacity = All (λ x. pos_part x ≤ capacity)

-- What the loop over slots leaves of a quantity `q`, and what it took in.
abbrev pub Stores : ℕ → ℕ → List ℤ → List ℤ × ℤ × ℤ → Type 0
Stores capacity q xs (xs', left, deposited) =
    (left ≡ pos (q - room capacity xs))
    × (deposited ≡ pos (min q (room capacity xs)))
    × (stock xs' ≡ stock xs + min q (room capacity xs))
    × (length xs' ≡ length xs)

-- A slot that is passed over, and one that takes `add` in.
abbrev passed : ℤ → List ℤ × ℤ × ℤ → List ℤ × ℤ × ℤ
passed x (xs, left, deposited) = (x ∷ xs, left, deposited)

abbrev taken_in : ℕ → ℕ → List ℤ × ℤ × ℤ → List ℤ × ℤ × ℤ
taken_in n add (xs, left, deposited) = (pos (n + add) ∷ xs, left, pos add +ℤ deposited)

le-or-lt : (m n : ℕ) → (m ≤ n) ⊎ (n < m)
le-or-lt m n = ground arith

unused_slot :
    (capacity q n : ℕ) (xs : List ℤ)
    → deposit_slots (pos capacity) (pos (suc q)) (negsuc n ∷ xs)
      ≡ passed (negsuc n) (deposit_slots (pos capacity) (pos (suc q)) xs)
unfolding deposit_slots
unused_slot capacity q n xs = ground arith

full_slot :
    (capacity q n : ℕ) (xs : List ℤ)
    → capacity ≤ n
    → deposit_slots (pos capacity) (pos (suc q)) (pos n ∷ xs)
      ≡ passed (pos n) (deposit_slots (pos capacity) (pos (suc q)) xs)
unfolding deposit_slots
full_slot capacity q n xs h = ground arith

added :
    (capacity q n : ℕ)
    → n ≤ capacity
    → min_ℤ (pos capacity -ℤ pos n) (pos q) ≡ pos (min (capacity - n) q)
added capacity q n h = rw (-ℤ-pos capacity n h) (min_ℤ-pos (capacity - n) q)

open_slot :
    (capacity q n : ℕ) (xs : List ℤ)
    → n < capacity
    → deposit_slots (pos capacity) (pos (suc q)) (pos n ∷ xs) ≡ (
        let add = min (capacity - n) (suc q) in
        taken_in n add (deposit_slots (pos capacity) (pos (suc q - add)) xs))
unfolding deposit_slots
open_slot capacity q n xs h = rw (
  leb_ℤ-suc q,
  never n,
  later capacity n h,
  added capacity (suc q) n (omega arith),
  -ℤ-pos (suc q) (min (capacity - n) (suc q)) (omega arith),
  +ℤ-pos n (min (capacity - n) (suc q)),
  deposit_slots,
)
  where
    later : (k m : ℕ) → m < k → leb_ℤ (pos k) (pos m) ≡ false
    later k m h = ground arith

    never : (m : ℕ) → ltb_ℤ (pos m) (pos 0) ≡ false
    never m = ground arith

passed-Stores :
    (capacity q : ℕ) (x : ℤ) (xs : List ℤ) (y : List ℤ × ℤ × ℤ)
    → room capacity (x ∷ xs) ≡ room capacity xs
    → Stores capacity q xs y
    → Stores capacity q (x ∷ xs) (passed x y)
unfolding stock
passed-Stores capacity q x xs (xs', l, d) e (a, b, c, n) = rw e (a, b, omega arith, omega arith)

taken_in-Stores :
    (capacity q n : ℕ) (xs : List ℤ) (y : List ℤ × ℤ × ℤ)
    → Stores capacity (q - min (capacity - n) q) xs y
    → Stores capacity q (pos n ∷ xs) (taken_in n (min (capacity - n) q) y)
unfolding stock
taken_in-Stores capacity q n xs (xs', l, d) (a, b, c, e) =
    let add = min (capacity - n) q in
    (
      a ∙ ap pos (omega arith),
      rw (b, +ℤ-pos add (min (q - add) (room capacity xs))) (ap pos (omega arith)),
      omega arith,
      omega arith,
    )

pub deposit_slots-Stores :
    (capacity q : ℕ) (xs : List ℤ) → Stores capacity q xs (deposit_slots (pos capacity) (pos q) xs)
unfolding deposit_slots stock
deposit_slots-Stores capacity q [] = (ap pos (omega arith), ap pos (omega arith), omega arith, refl)
deposit_slots-Stores capacity zero (x ∷ xs) =
    (ap pos (omega arith), ap pos (omega arith), omega arith, refl)
deposit_slots-Stores capacity (suc q) (negsuc n ∷ xs) =
    rw (unused_slot capacity q n xs) (
      passed-Stores capacity (suc q) (negsuc n) xs _ refl
        (deposit_slots-Stores capacity (suc q) xs))
deposit_slots-Stores capacity (suc q) (pos n ∷ xs) = elim (le-or-lt capacity n) [
  | inl full ↦ rw (full_slot capacity q n xs full) (
      passed-Stores capacity (suc q) (pos n) xs _ (omega arith)
        (deposit_slots-Stores capacity (suc q) xs))
  | inr free ↦ rw (open_slot capacity q n xs free) (
      taken_in-Stores capacity (suc q) n xs _
        (deposit_slots-Stores capacity (suc q - min (capacity - n) (suc q)) xs))
]

-- A deposit leaves no slot with more than the capacity, if none had more before.
pub deposit_slots-Fits :
    (capacity q : ℕ) (xs : List ℤ)
    → Fits capacity xs
    → Fits capacity (deposit_slots (pos capacity) (pos q) xs).0
unfolding deposit_slots
deposit_slots-Fits capacity q [] fits = tt
deposit_slots-Fits capacity zero (x ∷ xs) fits = fits
deposit_slots-Fits capacity (suc q) (negsuc n ∷ xs) (f, fits) =
    rw (unused_slot capacity q n xs) (f, deposit_slots-Fits capacity (suc q) xs fits)
deposit_slots-Fits capacity (suc q) (pos n ∷ xs) (f, fits) = elim (le-or-lt capacity n) [
  | inl full ↦ rw (full_slot capacity q n xs full) (f, deposit_slots-Fits capacity (suc q) xs fits)
  | inr free ↦
      rw (open_slot capacity q n xs free)
        (omega arith, deposit_slots-Fits capacity (suc q - min (capacity - n) (suc q)) xs fits)
]
