-- ===== src/Prelude/Lists.antt =====
-- Lists measured and indexed by native numbers, under the library's names.
use Prim.Native.Nat.{ℕ, zero, suc, ◌+◌, ◌-◌, ◌<◌, min}
use mathlib.Core.Path.{◌≡◌, refl, ap, subst}
use mathlib.Core.Logic.{◌≢◌}
use mathlib.Core.Bool.{Bool, true, false}
use mathlib.Core.List.{List, [], ◌∷◌, ◌++◌, map}
use mathlib.Core.Option.{Option, none, some, some-injective}
use native.Mathlib.Omega.{arith}
use cj_store.Prelude.Tests.{if◌then◌else◌}

module _ {ℓ} {A : Type ℓ} where
  abbrev pub length : List A → ℕ
  length [] = 0
  length (x ∷ xs) = suc (length xs)

  abbrev pub get_elem? : List A → ℕ → Option A
  get_elem? [] i = none
  get_elem? (x ∷ xs) zero = some x
  get_elem? (x ∷ xs) (suc i) = get_elem? xs i

  -- A write out of bounds changes nothing.
  abbrev pub set : List A → ℕ → A → List A
  set [] i v = []
  set (x ∷ xs) zero v = v ∷ xs
  set (x ∷ xs) (suc i) v = x ∷ set xs i v

  pub length-append : (xs ys : List A) → length (xs ++ ys) ≡ length xs + length ys
  length-append [] ys = omega arith
  length-append (x ∷ xs) ys = omega (arith, length-append xs ys)

module _ {ℓ} {A : Type ℓ} where
  pub length-set : (xs : List A) (i : ℕ) (v : A) → length (set xs i v) ≡ length xs
  length-set [] i v = refl
  length-set (x ∷ xs) zero v = refl
  length-set (x ∷ xs) (suc i) v = ap suc (length-set xs i v)

  pub get_elem?-set_self :
      (xs : List A) (i : ℕ) (v : A) → i < length xs → get_elem? (set xs i v) i ≡ some v
  get_elem?-set_self [] i v h = elim h [ ]
  get_elem?-set_self (x ∷ xs) zero v h = refl
  get_elem?-set_self (x ∷ xs) (suc i) v h = get_elem?-set_self xs i v (omega arith)

  pub get_elem?-set_ne :
      (xs : List A) {i j : ℕ} (v : A) → i ≢ j → get_elem? (set xs i v) j ≡ get_elem? xs j
  get_elem?-set_ne [] v h = refl
  get_elem?-set_ne (x ∷ xs) {i = zero} {j = zero} v h = absurd (h refl)
  get_elem?-set_ne (x ∷ xs) {i = zero} {j = suc j} v h = refl
  get_elem?-set_ne (x ∷ xs) {i = suc i} {j = zero} v h = refl
  get_elem?-set_ne (x ∷ xs) {i = suc i} {j = suc j} v h = get_elem?-set_ne xs v (λ e. h (ap suc e))

module _ {ℓ} {A : Type ℓ} where
  abbrev pub get_or : List A → ℕ → A → A
  get_or [] i d = d
  get_or (x ∷ xs) zero d = x
  get_or (x ∷ xs) (suc i) d = get_or xs i d

  abbrev pub take : ℕ → List A → List A
  take zero xs = []
  take (suc n) [] = []
  take (suc n) (x ∷ xs) = x ∷ take n xs

  abbrev pub drop : ℕ → List A → List A
  drop zero xs = xs
  drop (suc n) [] = []
  drop (suc n) (x ∷ xs) = drop n xs

  abbrev pub replicate : ℕ → A → List A
  replicate zero a = []
  replicate (suc n) a = a ∷ replicate n a

  pub take-append-drop : (n : ℕ) (xs : List A) → take n xs ++ drop n xs ≡ xs
  take-append-drop zero xs = refl
  take-append-drop (suc n) [] = refl
  take-append-drop (suc n) (x ∷ xs) = rw (take-append-drop n xs)

  pub length-take : (n : ℕ) (xs : List A) → length (take n xs) ≡ min n (length xs)
  length-take zero xs = omega arith
  length-take (suc n) [] = omega arith
  length-take (suc n) (x ∷ xs) = omega (arith, length-take n xs)

  pub length-drop : (n : ℕ) (xs : List A) → length (drop n xs) ≡ length xs - n
  length-drop zero xs = omega arith
  length-drop (suc n) [] = omega arith
  length-drop (suc n) (x ∷ xs) = omega (arith, length-drop n xs)

  pub length-replicate : (n : ℕ) (a : A) → length (replicate n a) ≡ n
  length-replicate zero a = refl
  length-replicate (suc n) a = ap suc (length-replicate n a)

  pub length-map {κ} : {B : Type κ} (xs : List A) (f : A → B) → length (map f xs) ≡ length xs
  length-map [] f = refl
  length-map (x ∷ xs) f = ap suc (length-map xs f)

-- The calls of `VecDeque` and of iterators that the program makes.
module _ {ℓ} {A : Type ℓ} where
  -- `iter().position(..)`
  abbrev pub position : (A → Bool) → List A → Option ℕ
  position p [] = none
  position p (x ∷ xs) =
      let rest = position p xs in
      if p x then some 0 else elim rest [ none ↦ none | some i ↦ some (suc i) ]

  -- `remove(i)`: the element and the rest, or nothing out of bounds.
  abbrev pub remove : List A → ℕ → Option (A × List A)
  remove [] i = none
  remove (x ∷ xs) zero = some (x, xs)
  remove (x ∷ xs) (suc i) = elim (remove xs i) [ none ↦ none | some (a, rest) ↦ some (a, x ∷ rest) ]

  -- `insert(i, v)`, which never stands out of bounds here.
  abbrev pub insert_at : ℕ → A → List A → List A
  insert_at zero v xs = v ∷ xs
  insert_at (suc i) v [] = v ∷ []
  insert_at (suc i) v (x ∷ xs) = x ∷ insert_at i v xs

  -- `pop_back()`
  abbrev pub pop_back : List A → List A
  pop_back [] = []
  pop_back (x ∷ []) = []
  pop_back (x ∷ (y ∷ ys)) = x ∷ pop_back (y ∷ ys)

  -- `filter(..).count()`
  abbrev pub count_if : (A → Bool) → List A → ℕ
  count_if p [] = 0
  count_if p (x ∷ xs) = let rest = count_if p xs in if p x then suc rest else rest

  -- `any(..)`
  abbrev pub any : (A → Bool) → List A → Bool
  any p [] = false
  any p (x ∷ xs) = if p x then true else any p xs

  -- `retain(..)`, `filter(..)`
  abbrev pub retain : (A → Bool) → List A → List A
  retain p [] = []
  retain p (x ∷ xs) = let rest = retain p xs in if p x then x ∷ rest else rest

  -- A predicate on all members.
  abbrev pub All {κ} : (A → Type κ) → List A → Type κ
  All P [] = Unit
  All P (x ∷ xs) = P x × All P xs

  pub pop_back-append : (xs : List A) (a : A) → pop_back (xs ++ a ∷ []) ≡ xs
  pop_back-append [] a = refl
  pop_back-append (x ∷ []) a = refl
  pop_back-append (x ∷ (y ∷ ys)) a = ap (◌∷◌ x) (pop_back-append (y ∷ ys) a)

  pub count_if-append :
      (p : A → Bool) (xs ys : List A) → count_if p (xs ++ ys) ≡ count_if p xs + count_if p ys
  count_if-append p [] ys = omega arith
  count_if-append p (x ∷ xs) ys = ground (arith, count_if-append p xs ys)

  pub All-append {κ} : (P : A → Type κ) (xs ys : List A) → All P xs → All P ys → All P (xs ++ ys)
  All-append P [] ys h k = k
  All-append P (x ∷ xs) ys h k = (h.0, All-append P xs ys h.1 k)

  pub insert_at-remove :
      (xs : List A) (i : ℕ) (a : A) (rest : List A)
      → remove xs i ≡ some (a, rest)
      → insert_at i a rest ≡ xs
  insert_at-remove [] i a rest e = cc
  insert_at-remove (x ∷ xs) zero a rest e = ground arith
  insert_at-remove (x ∷ xs) (suc i) a rest e = grind (arith, insert_at-remove xs i)

  -- A list taken apart at a member that passes the test, which a removal at `i` takes out.
  abbrev Found : (A → Bool) → List A → ℕ → Type ℓ
  Found p xs i =
      (before : List A) × (a : A) × (after : List A) × (xs ≡ before ++ a ∷ after)
      × (remove xs i ≡ some (a, before ++ after))
      × (p a ≡ true)

  Found-later :
      (p : A → Bool) (x : A) (xs : List A) (i : ℕ) → Found p xs i → Found p (x ∷ xs) (suc i)
  Found-later p x xs i (before, a, after, e, r, t) = (x ∷ before, a, after, ap (◌∷◌ x) e, rw r, t)

  Found-step :
      (p : A → Bool) (x : A) (xs : List A) (b : Bool) (o : Option ℕ) (i : ℕ)
      → p x ≡ b
      → ((j : ℕ) → o ≡ some j → Found p xs j)
      → (if b then some 0 else elim o [ none ↦ none | some j ↦ some (suc j) ]) ≡ some i
      → Found p (x ∷ xs) i
  Found-step p x xs true o i h ih e =
      subst (Found p (x ∷ xs)) (some-injective _ _ e) ([], x, xs, refl, refl, h)
  Found-step p x xs false none i h ih e = cc
  Found-step p x xs false (some j) i h ih e =
      subst (Found p (x ∷ xs)) (some-injective _ _ e) (Found-later p x xs j (ih j refl))

  -- What a search finds, a removal takes out.
  pub remove-position :
      (p : A → Bool) (xs : List A) (i : ℕ)
      → position p xs ≡ some i
      → (before : List A) × (a : A) × (after : List A) × (xs ≡ before ++ a ∷ after)
        × (remove xs i ≡ some (a, before ++ after))
        × (p a ≡ true)
  remove-position p [] i e = cc
  remove-position p (x ∷ xs) i e =
      Found-step p x xs (p x) (position p xs) i refl (remove-position p xs) e
