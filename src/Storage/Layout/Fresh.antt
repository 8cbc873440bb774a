-- ===== src/Storage/Layout/Fresh.antt =====
-- The identifier of a new node, and the state of its chests.
use cj_store.Prelude.{
  ℕ, zero, suc, ◌+◌, ◌≤◌, ◌≡◌, refl, Bool, true, false, List, [], ◌∷◌, arith, length, any, count_if,
  Bool-cases, inl, inr,
}
use cj_store.Prelude.Int.{pos, leb_ℤ}
use cj_store.Types.{Node}
use cj_store.Storage.Layout.{has_id, free_id_from, free_id}

-- The nodes whose identifiers are not below `i`.
abbrev not_below : ℕ → Node → Bool
not_below i n = leb_ℤ (pos i) n.id

count_le_length : {A : Type 0} (p : A → Bool) (l : List A) → count_if p l ≤ length l
count_le_length p [] = omega arith
count_le_length p (x ∷ l) = ground (arith, count_le_length p l)

fewer : (i : ℕ) (ns : List Node) → count_if (not_below (i + 1)) ns ≤ count_if (not_below i) ns
fewer i [] = omega arith
fewer i (n ∷ ns) = ground (arith, fewer i ns)

one_fewer :
    (i : ℕ) (ns : List Node)
    → any (has_id i) ns ≡ true
    → count_if (not_below (i + 1)) ns + 1 ≤ count_if (not_below i) ns
one_fewer i [] e = cc
one_fewer i (n ∷ ns) e = ground (arith, e, fewer i ns, one_fewer i ns)

none_left : (i : ℕ) (ns : List Node) → count_if (not_below i) ns ≡ 0 → any (has_id i) ns ≡ false
none_left i [] e = refl
none_left i (n ∷ ns) e = ground (arith, e, none_left i ns)

free_id_from-unused :
    (tries i : ℕ) (ns : List Node)
    → count_if (not_below i) ns ≤ tries
    → any (has_id (free_id_from tries i ns)) ns ≡ false
unfolding free_id_from
free_id_from-unused zero i ns h = none_left i ns (omega arith)
free_id_from-unused (suc tries) i ns h = elim (Bool-cases (any (has_id i) ns)) [
  | inr free ↦ rw (free, free_id_from) free
  | inl used ↦
      rw (used, free_id_from)
        (free_id_from-unused tries (i + 1) ns (omega (arith, one_fewer i ns used)))
]

-- The node that `add_node` makes has an identifier that no node had, and the loop that looks for it
-- comes to its end.
pub free_id-unused : (ns : List Node) → any (has_id (free_id ns)) ns ≡ false
unfolding free_id
free_id-unused ns = free_id_from-unused (length ns) 0 ns (count_le_length (not_below 0) ns)
