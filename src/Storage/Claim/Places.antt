-- ===== src/Storage/Claim/Places.antt =====
-- The place that `find_empty_chest_index` gives holds an unassigned chest, and what a write there
-- changes.
use cj_store.Prelude.{
  ℕ, zero, suc, ◌+◌, ◌≡◌, refl, ap, sym, ◌∙◌, inl, inr, Bool, true, ◌&&◌, some, List, [], ◌∷◌,
  str_eq, get_elem?, set, drop, Bool-cases, Option-cases, arith,
}
use mathlib.Core.Path.{subst}
use mathlib.Core.Option.{some-injective}
use cj_store.Types.{ItemId, is_empty, Chest, Node}
use cj_store.Storage.{held, stock_chests, stock_nodes}
use cj_store.Storage.Claim.{
  unassigned_at, first_unassigned, find_in_first, find_in_rest, find_empty_chest_index, chest_at,
  put_chest,
}

-- The chest at a place is there and unassigned.
abbrev pub Vacant : List Chest → ℕ → Type 0
Vacant cs ci = (c : Chest) × (get_elem? cs ci ≡ some c) × (is_empty c.item ≡ true)

first_unassigned-Vacant :
    (k : ℕ) (cs : List Chest) (ci : ℕ)
    → first_unassigned k cs ≡ some ci
    → (i : ℕ) × (ci ≡ k + i) × Vacant cs i
unfolding first_unassigned
first_unassigned-Vacant k [] ci e = cc
first_unassigned-Vacant k (c ∷ cs) ci e = elim (Bool-cases (is_empty c.item)) [
  | inl free ↦ (0, here free, (c, refl, free))
  | inr taken ↦
      let (i, at, v) = first_unassigned-Vacant (k + 1) cs ci (rw (taken, first_unassigned) at e) in
      (suc i, omega arith, v)
]
  where
    here : is_empty c.item ≡ true → ci ≡ k + 0
    here free = omega (arith, some-injective _ _ (rw (free, first_unassigned) at e))

unassigned_at-Vacant : (cs : List Chest) (ci : ℕ) → unassigned_at cs ci ≡ true → Vacant cs ci
unassigned_at-Vacant cs ci e = elim (Option-cases (get_elem? cs ci)) [
  | inl n ↦ cc (rw (n, unassigned_at) at e)
  | inr (c, n) ↦ (c, n, (rw (n, unassigned_at) at e))
]

get_elem?-drop : (cs : List Chest) (i : ℕ) → get_elem? (drop 2 cs) i ≡ get_elem? cs (suc (suc i))
get_elem?-drop [] i = refl
get_elem?-drop (a ∷ []) i = refl
get_elem?-drop (a ∷ (b ∷ cs)) i = refl

find_in_first-Vacant :
    (item : ItemId) (cs : List Chest) (ci : ℕ) → find_in_first item cs ≡ some ci → Vacant cs ci
unfolding find_in_first
find_in_first-Vacant item cs ci e =
    elim (Bool-cases (str_eq item "diamond" && unassigned_at cs 0)) [
      | inl d ↦
          subst (Vacant cs) (some-injective _ _ (rw (d, find_in_first) at e))
            (unassigned_at-Vacant cs 0 (and_right _ _ d))
      | inr d ↦ elim (Bool-cases (str_eq item "overflow" && unassigned_at cs 1)) [
        | inl o ↦
            subst (Vacant cs) (some-injective _ _ (rw (d, o, find_in_first) at e))
              (unassigned_at-Vacant cs 1 (and_right _ _ o))
        | inr o ↦
            let (i, at, (c, g, free)) =
              first_unassigned-Vacant 2 (drop 2 cs) ci (rw (d, o, find_in_first) at e) in
            subst (Vacant cs) (two i ∙ sym at) (c, sym (get_elem?-drop cs i) ∙ g, free)
      ]
    ]
  where
    and_right : (a b : Bool) → (a && b) ≡ true → b ≡ true
    and_right a b h = ground (arith, h)

    two : (i : ℕ) → suc (suc i) ≡ 2 + i
    two i = omega arith

-- The chest at a place of the warehouse is there and unassigned.
abbrev pub VacantAt : List Node → ℕ × ℕ → Type 0
VacantAt ns (ni, ci) = (c : Chest) × (chest_at ns ni ci ≡ some c) × (is_empty c.item ≡ true)

find_in_rest-VacantAt :
    (k : ℕ) (ns : List Node) (ni ci : ℕ)
    → find_in_rest k ns ≡ some (ni, ci)
    → (i : ℕ) × (ni ≡ k + i) × VacantAt ns (i, ci)
unfolding find_in_rest chest_at
find_in_rest-VacantAt k [] ni ci e = cc
find_in_rest-VacantAt k (n ∷ ns) ni ci e = elim (Option-cases (first_unassigned 0 n.chests)) [
  | inl full ↦
      let (i, at, v) = find_in_rest-VacantAt (k + 1) ns ni ci (rw (full, find_in_rest) at e) in
      (suc i, omega arith, v)
  | inr (c, found) ↦
      let here = some-injective _ _ (rw (found, find_in_rest) at e) in
      let (i, at, v) = first_unassigned-Vacant 0 n.chests c found in
      (
        0,
        omega (arith, ap (λ (x : ℕ × ℕ). x.0) here),
        subst (Vacant n.chests) (omega (arith, at) ∙ ap (λ (x : ℕ × ℕ). x.1) here) v,
      )
]

pub find_empty_chest_index-VacantAt :
    (item : ItemId) (ns : List Node) (at : ℕ × ℕ)
    → find_empty_chest_index item ns ≡ some at
    → VacantAt ns at
unfolding find_empty_chest_index chest_at
find_empty_chest_index-VacantAt item [] at e = cc
find_empty_chest_index-VacantAt item (n ∷ ns) (ni, ci) e =
    elim (Option-cases (find_in_first item n.chests)) [
      | inl full ↦
          let (i, at, v) =
            find_in_rest-VacantAt 1 ns ni ci (rw (full, find_empty_chest_index) at e) in
          subst (λ k. VacantAt (n ∷ ns) (k, ci)) (after i ni at) v
      | inr (c, found) ↦
          let here = some-injective _ _ (rw (found, find_empty_chest_index) at e) in
          subst (VacantAt (n ∷ ns)) here (find_in_first-Vacant item n.chests c found)
    ]
  where
    after : (i ni : ℕ) → ni ≡ 1 + i → suc i ≡ ni
    after i ni at = omega arith

-- What a write does to the stock of any item.
stock_chests-set :
    (j : ItemId) (cs : List Chest) (ci : ℕ) (c c' : Chest)
    → get_elem? cs ci ≡ some c
    → stock_chests j (set cs ci c') + held j c ≡ stock_chests j cs + held j c'
unfolding stock_chests
stock_chests-set j [] ci c c' e = cc
stock_chests-set j (x ∷ cs) zero c c' e = omega (arith, ap (held j) (some-injective _ _ e))
stock_chests-set j (x ∷ cs) (suc ci) c c' e = omega (arith, stock_chests-set j cs ci c c' e)

pub stock_nodes-put_chest :
    (j : ItemId) (ns : List Node) (ni ci : ℕ) (c c' : Chest)
    → chest_at ns ni ci ≡ some c
    → stock_nodes j (put_chest ns ni ci c') + held j c ≡ stock_nodes j ns + held j c'
unfolding stock_nodes put_chest chest_at
stock_nodes-put_chest j [] ni ci c c' e = cc
stock_nodes-put_chest j (n ∷ ns) zero ci c c' e =
    omega (arith, stock_chests-set j n.chests ci c c' e)
stock_nodes-put_chest j (n ∷ ns) (suc ni) ci c c' e =
    omega (arith, stock_nodes-put_chest j ns ni ci c c' e)
