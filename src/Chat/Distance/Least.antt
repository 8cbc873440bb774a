-- ===== src/Chat/Distance/Least.antt =====
-- The distance is the least cost of edits.
use mathlib.Core.Path.{subst}
use mathlib.Core.List.{append-nil}
use cj_store.Prelude.{
  ℕ, suc, ◌+◌, ◌≤◌, ◌≡◌, refl, ap, sym, ◌∙◌, Bool, true, false, List, [], ◌∷◌, ◌++◌, arith, length,
  if◌then◌else◌, min, ◌⊎◌, inl, inr, Bool-cases,
}
use cj_store.Chat.Distance.{
  eq_ignore_ascii_case, cost, count_from, fill, next_row, rows, entry, levenshtein,
}

-- `n` edits make `b` of `a`: bytes that differ at most in case are kept for nothing.
pub data Edits : List ℕ → List ℕ → ℕ → Type 0 where
  done : Edits [] [] 0
  keep :
      {x y : ℕ} {a b : List ℕ} {n : ℕ}
      → eq_ignore_ascii_case x y ≡ true
      → Edits a b n
      → Edits (x ∷ a) (y ∷ b) n
  replace : {x y : ℕ} {a b : List ℕ} {n : ℕ} → Edits a b n → Edits (x ∷ a) (y ∷ b) (suc n)
  insert : {y : ℕ} {a b : List ℕ} {n : ℕ} → Edits a b n → Edits a (y ∷ b) (suc n)
  delete : {x : ℕ} {a b : List ℕ} {n : ℕ} → Edits a b n → Edits (x ∷ a) b (suc n)

-- The distance by recursion on both lists; `prev` is that from the rest of the first list.
column : ℕ → ℕ → (List ℕ → ℕ) → List ℕ → ℕ
column x m prev [] = m
column x m prev (y ∷ b) = min (min (column x m prev b + 1) (prev (y ∷ b) + 1)) (prev b + cost x y)

dist : List ℕ → List ℕ → ℕ
unfolding column
dist [] b = length b
dist (x ∷ a) b = column x (length (x ∷ a)) (dist a) b

least_one : (a b c : ℕ) → (min (min a b) c ≤ a) × (min (min a b) c ≤ b) × (min (min a b) c ≤ c)
least_one a b c = (omega arith, omega arith, omega arith)

cost_same : (x y : ℕ) → eq_ignore_ascii_case x y ≡ true → cost x y ≡ 0
unfolding cost
cost_same x y e = ap (λ (b : Bool). if b then 0 else 1) e

cost_other : (x y : ℕ) → eq_ignore_ascii_case x y ≡ false → cost x y ≡ 1
unfolding cost
cost_other x y e = ap (λ (b : Bool). if b then 0 else 1) e

cost-le-one : (x y : ℕ) → cost x y ≤ 1
cost-le-one x y = elim (Bool-cases (eq_ignore_ascii_case x y)) [
  | inl e ↦ omega (arith, cost_same x y e)
  | inr e ↦ omega (arith, cost_other x y e)
]

dist-nil : (a : List ℕ) → dist a [] ≡ length a
unfolding dist column
dist-nil [] = refl
dist-nil (x ∷ a) = refl

-- No edits cost less than the distance.
dist-le-Edits : {a b : List ℕ} {n : ℕ} → Edits a b n → dist a b ≤ n
unfolding dist column
dist-le-Edits done = omega arith
dist-le-Edits (keep {x} {y} e s) = omega (arith, cost_same x y e, dist-le-Edits s)
dist-le-Edits (replace {x} {y} s) = omega (arith, cost-le-one x y, dist-le-Edits s)
dist-le-Edits (insert {a = []} s) = omega (arith, dist-le-Edits s)
dist-le-Edits (insert {a = x ∷ a} s) = omega (arith, dist-le-Edits s)
dist-le-Edits (delete {a = a} {b = []} s) = omega (arith, dist-nil a, dist-le-Edits s)
dist-le-Edits (delete {b = y ∷ b} s) = omega (arith, dist-le-Edits s)

min-cases : (a b c : ℕ) → (min (min a b) c ≡ a) ⊎ ((min (min a b) c ≡ b) ⊎ (min (min a b) c ≡ c))
min-cases a b c = ground arith

kept_or_replaced :
    (x y : ℕ) (a b : List ℕ) (n : ℕ) → Edits a b n → Edits (x ∷ a) (y ∷ b) (n + cost x y)
kept_or_replaced x y a b n s = elim (Bool-cases (eq_ignore_ascii_case x y)) [
  | inl e ↦ subst (Edits (x ∷ a) (y ∷ b)) (none_more n (cost x y) (cost_same x y e)) (keep e s)
  | inr e ↦ subst (Edits (x ∷ a) (y ∷ b)) (one_more n (cost x y) (cost_other x y e)) (replace s)
]
  where
    none_more : (n c : ℕ) → c ≡ 0 → n ≡ n + c
    none_more n c h = omega (arith, h)

    one_more : (n c : ℕ) → c ≡ 1 → suc n ≡ n + c
    one_more n c h = omega (arith, h)

plus_one : (n : ℕ) → suc n ≡ n + 1
plus_one n = omega arith

-- Some edits cost as much.
dist-Edits : (a b : List ℕ) → Edits a b (dist a b)
unfolding dist column
dist-Edits [] [] = done
dist-Edits [] (y ∷ b) = insert (dist-Edits [] b)
dist-Edits (x ∷ []) [] = delete done
dist-Edits (x ∷ z ∷ a) [] = delete (dist-Edits (z ∷ a) [])
dist-Edits (x ∷ a) (y ∷ b) =
    let inserted =
      subst (Edits (x ∷ a) (y ∷ b)) (plus_one (dist (x ∷ a) b)) (insert (dist-Edits (x ∷ a) b)) in
    let deleted =
      subst (Edits (x ∷ a) (y ∷ b)) (plus_one (dist a (y ∷ b))) (delete (dist-Edits a (y ∷ b))) in
    let changed = kept_or_replaced x y a b (dist a b) (dist-Edits a b) in
    elim (min-cases (dist (x ∷ a) b + 1) (dist a (y ∷ b) + 1) (dist a b + cost x y)) [
      | inl e ↦ subst (Edits (x ∷ a) (y ∷ b)) (sym e) inserted
      | inr (inl e) ↦ subst (Edits (x ∷ a) (y ∷ b)) (sym e) deleted
      | inr (inr e) ↦ subst (Edits (x ∷ a) (y ∷ b)) (sym e) changed
    ]

rev_onto : List ℕ → List ℕ → List ℕ
rev_onto acc [] = acc
rev_onto acc (x ∷ a) = rev_onto (x ∷ acc) a

rev_onto-rev_onto : (c d a : List ℕ) → rev_onto c (rev_onto d a) ≡ rev_onto (a ++ c) d
unfolding rev_onto
rev_onto-rev_onto c d [] = refl
rev_onto-rev_onto c d (x ∷ a) = rev_onto-rev_onto c (x ∷ d) a

twice : (a : List ℕ) → rev_onto [] (rev_onto [] a) ≡ a
unfolding rev_onto
twice a = rev_onto-rev_onto [] [] a ∙ append-nil a

one_over : (n m : ℕ) → n + suc m ≡ suc n + m
one_over n m = omega arith

-- Edits of the lists turned round, and onto others that are edited.
onto :
    {a b c d : List ℕ} {n m : ℕ}
    → Edits a b n
    → Edits c d m
    → Edits (rev_onto c a) (rev_onto d b) (n + m)
unfolding rev_onto
onto {c = c} {d} {m = m} done t = subst (Edits c d) (none_before m) t
  where
    none_before : (m : ℕ) → m ≡ 0 + m
    none_before m = omega arith
onto (keep e s) t = onto s (keep e t)
onto {c = c} {d} {m = m} (replace {x} {y} {a} {b} {n} s) t =
    subst (Edits (rev_onto (x ∷ c) a) (rev_onto (y ∷ d) b)) (one_over n m) (onto s (replace t))
onto {c = c} {d} {m = m} (insert {y} {a} {b} {n} s) t =
    subst (Edits (rev_onto c a) (rev_onto (y ∷ d) b)) (one_over n m) (onto s (insert t))
onto {c = c} {d} {m = m} (delete {x} {a} {b} {n} s) t =
    subst (Edits (rev_onto (x ∷ c) a) (rev_onto d b)) (one_over n m) (onto s (delete t))

turned : {a b : List ℕ} {n : ℕ} → Edits a b n → Edits (rev_onto [] a) (rev_onto [] b) n
turned {a} {b} {n} s = subst (Edits (rev_onto [] a) (rev_onto [] b)) (none_after n) (onto s done)
  where
    none_after : (n : ℕ) → n + 0 ≡ n
    none_after n = omega arith

-- A row of the table: the distances of the prefixes of `b`, turned round, the first being `acc`.
later_entries : (List ℕ → ℕ) → List ℕ → List ℕ → List ℕ
later_entries g acc [] = []
later_entries g acc (y ∷ b) = g (y ∷ acc) ∷ later_entries g (y ∷ acc) b

abbrev row : (List ℕ → ℕ) → List ℕ → List ℕ → List ℕ
row g acc b = g acc ∷ later_entries g acc b

count_from-row : (acc b : List ℕ) → count_from (length acc) (length b) ≡ row (dist []) acc b
unfolding count_from later_entries dist
count_from-row acc [] = refl
count_from-row acc (y ∷ b) =
    ap (λ xs. length acc ∷ xs)
      (ap (λ n. count_from n (length b)) (add_one (length acc)) ∙ count_from-row (y ∷ acc) b)
  where
    add_one : (n : ℕ) → n + 1 ≡ suc n
    add_one n = omega arith

fill-row :
    (c : ℕ) (ra acc b : List ℕ)
    → fill c (dist (c ∷ ra) acc) (row (dist ra) acc b) b ≡ later_entries (dist (c ∷ ra)) acc b
unfolding fill later_entries dist column
fill-row c ra acc [] = refl
fill-row c ra acc (y ∷ b) = ap (λ xs. dist (c ∷ ra) (y ∷ acc) ∷ xs) (fill-row c ra (y ∷ acc) b)

-- One row after another: `i` bytes are done, which stand turned round in `ra`.
rows-row :
    (i : ℕ) (ra a b : List ℕ)
    → i ≡ length ra
    → rows i (row (dist ra) [] b) a b ≡ row (dist (rev_onto ra a)) [] b
unfolding rows next_row rev_onto
rows-row i ra [] b e = refl
rows-row i ra (c ∷ a) b e =
    ap (λ n. rows (i + 1) (next_row c n (row (dist ra) [] b) b) a b) (first_entry i c ra e)
    ∙ ap (λ xs. rows (i + 1) (dist (c ∷ ra) [] ∷ xs) a b) (fill-row c ra [] b)
    ∙ rows-row (i + 1) (c ∷ ra) a b (omega (arith, e))
  where
    first_entry : (i c : ℕ) (ra : List ℕ) → i ≡ length ra → i + 1 ≡ dist (c ∷ ra) []
    first_entry i c ra e = omega (arith, e, dist-nil (c ∷ ra))

entry-row : (g : List ℕ → ℕ) (acc b : List ℕ) → entry (length b) (row g acc b) ≡ g (rev_onto acc b)
unfolding entry later_entries rev_onto
entry-row g acc [] = refl
entry-row g acc (y ∷ b) = entry-row g (y ∷ acc) b

length-rev_onto : (acc a : List ℕ) → length (rev_onto acc a) ≡ length a + length acc
unfolding rev_onto
length-rev_onto acc [] = omega arith
length-rev_onto acc (x ∷ a) = omega (arith, length-rev_onto (x ∷ acc) a)

levenshtein-dist : (a b : List ℕ) → levenshtein a b ≡ dist (rev_onto [] a) (rev_onto [] b)
unfolding levenshtein dist rev_onto
levenshtein-dist [] b = omega (arith, length-rev_onto [] b)
levenshtein-dist (c ∷ a) [] =
    omega (arith, length-rev_onto [] (c ∷ a), dist-nil (rev_onto [] (c ∷ a)))
levenshtein-dist (c ∷ a) (d ∷ b) =
    ap (λ xs. entry (length (d ∷ b)) (rows 0 xs (c ∷ a) (d ∷ b))) (count_from-row [] (d ∷ b))
    ∙ ap (λ xs. entry (length (d ∷ b)) xs) (rows-row 0 [] (c ∷ a) (d ∷ b) refl)
    ∙ entry-row (dist (rev_onto [] (c ∷ a))) [] (d ∷ b)

-- The two-row table gives the least number of edits, each of which replaces, inserts or deletes a
-- byte, that make one text of the other up to the case of ASCII letters: so many suffice, and no
-- fewer do.
pub levenshtein-least :
    (a b : List ℕ) → Edits a b (levenshtein a b) × ((n : ℕ) → Edits a b n → levenshtein a b ≤ n)
levenshtein-least a b =
    let e = levenshtein-dist a b in
    let shortest = turned (dist-Edits (rev_onto [] a) (rev_onto [] b)) in
    (
      subst (Edits a b) (sym e) (
          subst (λ x. Edits x b (dist (rev_onto [] a) (rev_onto [] b))) (twice a)
            (subst
              (λ y. Edits (rev_onto [] (rev_onto [] a)) y (dist (rev_onto [] a) (rev_onto [] b)))
              (twice b) shortest)),
      λ n s. rw e (dist-le-Edits (turned s)),
    )
