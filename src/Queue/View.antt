-- ===== src/Queue/View.antt =====
-- What players are shown of the queue: their orders with their places, and the waiting time.
use cj_store.Prelude.{
  ℕ, suc, ◌+◌, ◌-◌, ◌*◌, ◌/◌, ◌≤◌, ◌≡◌, refl, ap, ◌∙◌, Bool, true, false, some, List, [], ◌∷◌, ◌++◌,
  if◌then◌else◌, ltb, ◌==◌, String, length, length-append, get_elem?, count_if, All, arith,
}
use mathlib.Core.Path.{subst, subst₂}
use cj_store.Queue.{QueuedOrder, OrderQueue, is_of, user_order_count}

-- All orders of a user with their places in line, from 1.
user_orders_from : String → ℕ → List QueuedOrder → List (QueuedOrder × ℕ)
user_orders_from uuid i [] = []
user_orders_from uuid i (o ∷ os) =
    let rest = user_orders_from uuid (i + 1) os in if is_of uuid o then (o, i + 1) ∷ rest else rest

unfoldable pub get_user_orders : String → OrderQueue → List (QueuedOrder × ℕ)
unfolding user_orders_from
get_user_orders uuid q = user_orders_from uuid 0 q.orders

-- The answers of `estimate_wait`, before they are written out.
pub data Wait : Type 0 where
  next_in_line : Wait
  seconds minutes : ℕ → Wait

unfoldable pub estimate_wait : ℕ → Wait
estimate_wait place =
    let ahead = place - 1 in
    let secs = ahead * 30 in
    if ahead == 0
    then next_in_line
    else if ltb secs 60
    then seconds secs
    else minutes ((secs + 30) / 60)

-- An entry is the order of that player at that place, counted from 1.
abbrev pub Stands : String → List QueuedOrder → QueuedOrder × ℕ → Type 0
Stands uuid l (o, place) = (1 ≤ place) × (get_elem? l (place - 1) ≡ some o) × (is_of uuid o ≡ true)

get_elem?-append :
    (before : List QueuedOrder) (o : QueuedOrder) (after : List QueuedOrder)
    → get_elem? (before ++ o ∷ after) (length before) ≡ some o
get_elem?-append [] o after = refl
get_elem?-append (x ∷ before) o after = get_elem?-append before o after

append-snoc :
    (before : List QueuedOrder) (o : QueuedOrder) (after : List QueuedOrder)
    → (before ++ o ∷ []) ++ after ≡ before ++ o ∷ after
append-snoc [] o after = refl
append-snoc (x ∷ before) o after = ap (◌∷◌ x) (append-snoc before o after)

-- One order more, by whether it is the player's.
one_more :
    (P : QueuedOrder × ℕ → Type 0) (b : Bool) (e : QueuedOrder × ℕ) (l : List (QueuedOrder × ℕ))
    (n : ℕ)
    → (b ≡ true → P e)
    → All P l
    → length l ≡ n
    → All P (if b then e ∷ l else l) × (length (if b then e ∷ l else l) ≡ (if b then suc n else n))
one_more P true e l n h rest count = ((h refl, rest), ap suc count)
one_more P false e l n h rest count = (rest, count)

user_orders_from-Stands :
    (uuid : String) (before os : List QueuedOrder)
    → All (Stands uuid (before ++ os)) (user_orders_from uuid (length before) os)
      × (length (user_orders_from uuid (length before) os) ≡ count_if (is_of uuid) os)
unfolding user_orders_from
user_orders_from-Stands uuid before [] = (tt, refl)
user_orders_from-Stands uuid before (o ∷ os) =
    let (rest, count) = user_orders_from-Stands uuid (before ++ o ∷ []) os in
    let here : length (before ++ o ∷ []) ≡ length before + 1 = length-append before (o ∷ []) in
    one_more (Stands uuid (before ++ o ∷ os)) (is_of uuid o) (o, length before + 1)
      (user_orders_from uuid (length before + 1) os) (count_if (is_of uuid) os)
      (λ mine. (omega arith, at-place ∙ get_elem?-append before o os, mine))
      (subst₂ (λ l n. All (Stands uuid l) (user_orders_from uuid n os)) (append-snoc before o os)
        here rest)
      (subst (λ n. length (user_orders_from uuid n os) ≡ count_if (is_of uuid) os) here count)
  where
    at-place :
        get_elem? (before ++ o ∷ os) (length before + 1 - 1)
        ≡ get_elem? (before ++ o ∷ os) (length before)
    at-place = ap (get_elem? (before ++ o ∷ os)) (omega arith)

-- The list that a player is shown has exactly the player's orders in the queue, as many as count
-- towards the limit, each with the place in line, counted from 1, at which it stands.
pub get_user_orders-Stands :
    (uuid : String) (q : OrderQueue)
    → All (Stands uuid q.orders) (get_user_orders uuid q)
      × (length (get_user_orders uuid q) ≡ user_order_count uuid q)
unfolding get_user_orders user_order_count
get_user_orders-Stands uuid q = user_orders_from-Stands uuid [] q.orders
