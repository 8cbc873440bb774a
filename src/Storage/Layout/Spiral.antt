-- ===== src/Storage/Layout/Spiral.antt =====
-- The spiral of the nodes: which ring an identifier falls in, and where on the ring it lies.
use cj_store.Prelude.{
  ℕ, zero, suc, ◌+◌, ◌-◌, ◌*◌, ◌/◌, ◌%◌, ◌≤◌, ◌<◌, ◌≡◌, ◌≢◌, refl, ap, sym, ◌∙◌, ◌⊎◌, inl, inr,
  false, ltb, ltb→lt, arith, Bool-cases,
}
use mathlib.Core.Path.{subst}
use native.Mathlib.Nat.{div-add-mod, mod-lt, add-zero, le_refl}
use cj_store.Prelude.Int.{
  ℤ, pos, ◌+ℤ◌, ◌-ℤ◌, ◌*ℤ◌, pos_part, neg_part, +ℤ_parts, -ℤ_parts, eq_of_parts,
}
use cj_store.Types.{Position}
use cj_store.Storage.Layout.{ring_from, ring_of, pos_in_ring, side_step, ring_step, node_position}

-- The identifiers of the first `k` rings.
abbrev pub upto : ℕ → ℕ
upto k = k * (k + 1) * 4

upto-suc : (k : ℕ) → upto (suc k) ≡ upto k + 8 * suc k
upto-suc k = grind arith

-- `id` is in ring `k + 1`.
abbrev pub InRing : ℕ → ℕ → Type 0
InRing k id = (upto k < id) × (id ≤ upto (suc k))

ltb-false : (a b : ℕ) → ltb a b ≡ false → b ≤ a
ltb-false a b h = ground arith

upto_mono : (k m : ℕ) → upto k ≤ upto (k + m)
upto_mono k zero = rw (add-zero k) (le_refl _)
upto_mono k (suc m) = rw (shift k m) (omega (arith, upto_mono k m, upto-suc (k + m)))
  where
    shift : (k m : ℕ) → k + suc m ≡ suc (k + m)
    shift k m = omega arith

ring_from-InRing :
    (tries k id : ℕ)
    → upto k < id
    → id ≤ upto (suc k + tries)
    → (j : ℕ) × (ring_from tries (suc k) id ≡ suc j) × InRing j id
unfolding ring_from
ring_from-InRing zero k id lo hi = (k, refl, (lo, rw (add-zero (suc k)) at hi))
ring_from-InRing (suc tries) k id lo hi = elim (Bool-cases (ltb (upto (suc k)) id)) [
  | inr here ↦ rw (here, ring_from) (k, refl, (lo, ltb-false _ _ here))
  | inl on ↦
      rw (on, one_on k, ring_from)
        (ring_from-InRing tries (suc k) id (ltb→lt _ _ on) (rw (moved k tries) at hi))
]
  where
    one_on : (k : ℕ) → suc k + 1 ≡ suc (suc k)
    one_on k = omega arith

    moved : (k tries : ℕ) → suc k + suc tries ≡ suc (suc k) + tries
    moved k tries = omega arith

-- The loop over the rings ends at the ring that holds the identifier, within `id` rounds.
pub ring_of-InRing : (n : ℕ) → (j : ℕ) × (ring_of (suc n) ≡ suc j) × InRing j (suc n)
unfolding ring_of
ring_of-InRing n =
    ring_from-InRing (suc n) 0 (suc n) (omega arith) (omega (arith, large (suc (suc n))))
  where
    large : (m : ℕ) → m ≤ upto m
    large zero = omega arith
    large (suc m) = omega (arith, upto-suc m, large m)

-- The place in the ring, from 1.
place_bounds :
    (j id : ℕ)
    → InRing j id
    → (1 ≤ pos_in_ring (suc j) id)
      × (pos_in_ring (suc j) id ≤ 8 * suc j)
      × (id ≡ upto j + pos_in_ring (suc j) id)
unfolding pos_in_ring
place_bounds j id (lo, hi) = omega (arith, upto-suc j, swap j)
  where
    pred : (j : ℕ) → suc j - 1 ≡ j
    pred j = omega arith

    next : (j : ℕ) → suc j ≡ j + 1
    next j = omega arith

    swap : (j : ℕ) → (suc j - 1) * suc j * 4 ≡ upto j
    swap j = ap (λ (t : ℕ). t * suc j * 4) (pred j) ∙ ap (λ (t : ℕ). j * t * 4) (next j)

-- Where the place `p` of the ring `r` is: on the east, the south, the west or the north side.
abbrev pub OnRing : ℕ → ℕ → ℤ × ℤ → Type 0
OnRing r p (dx, dz) =
    ((p < 2 * r) × (dx ≡ pos r) × (pos_part dz + r ≡ neg_part dz + p))
    ⊎ (((2 * r ≤ p) × (p < 4 * r) × (pos_part dx + p ≡ neg_part dx + 3 * r) × (dz ≡ pos r))
        ⊎ (((4 * r ≤ p)
              × (p < 6 * r)
              × (dx ≡ pos 0 -ℤ pos r)
              × (pos_part dz + p ≡ neg_part dz + 5 * r))
            ⊎ ((6 * r ≤ p)
                × (p ≤ 8 * r)
                × (pos_part dx + 7 * r ≡ neg_part dx + p)
                × (dz ≡ pos 0 -ℤ pos r))))

side_step-OnRing :
    (k r p : ℕ)
    → 1 ≤ r
    → 2 * r * k ≤ p
    → p < 2 * r * suc k
    → p ≤ 8 * r
    → OnRing r p (side_step k r p)
unfolding side_step
side_step-OnRing zero r p one lo hi all =
    inl (omega arith, refl, omega (arith, -ℤ_parts (pos p) (pos r)))
side_step-OnRing (suc zero) r p one lo hi all = inr (
    inl (
      omega arith,
      omega arith,
      omega (arith, -ℤ_parts (pos r) (pos p -ℤ pos (2 * r)), -ℤ_parts (pos p) (pos (2 * r))),
      refl,
    ))
side_step-OnRing (suc (suc zero)) r p one lo hi all = inr (
    inr (
      inl (
        omega arith,
        omega arith,
        refl,
        omega (
          arith,
          -ℤ_parts (pos r) (pos p -ℤ pos (2 * (2 * r))),
          -ℤ_parts (pos p) (pos (2 * (2 * r))),
        ),
      )))
side_step-OnRing (suc (suc (suc zero))) r p one lo hi all = inr (
    inr (
      inr (
        omega arith,
        all,
        omega (
          arith,
          -ℤ_parts (pos p -ℤ pos (3 * (2 * r))) (pos r),
          -ℤ_parts (pos p) (pos (3 * (2 * r))),
        ),
        refl,
      )))
side_step-OnRing (suc (suc (suc (suc k)))) r p one lo hi all = inr (
    inr (
      inr (
        omega (arith, top k r p lo),
        all,
        omega (
          arith,
          -ℤ_parts (pos p -ℤ pos (3 * (2 * r))) (pos r),
          -ℤ_parts (pos p) (pos (3 * (2 * r))),
        ),
        refl,
      )))
  where
    top : (k r p : ℕ) → 2 * r * suc (suc (suc (suc k))) ≤ p → 6 * r ≤ p
    top k r p lo = grind (arith, lo)

-- The side is the quotient by the length of a side.
ring_step-OnRing : (j p : ℕ) → p ≤ 8 * suc j → OnRing (suc j) p (ring_step (suc j) p)
unfolding ring_step
ring_step-OnRing j p all =
    let side = 2 * suc j in
    side_step-OnRing (p / side) (suc j) p (omega arith)
      (below side (p / side) (p % side) p (div-add-mod p side))
      (above side (p / side) (p % side) p (div-add-mod p side) (mod-lt p (omega arith))) all
  where
    below : (s k m p : ℕ) → s * k + m ≡ p → s * k ≤ p
    below s k m p e = omega arith

    above : (s k m p : ℕ) → s * k + m ≡ p → m < s → p < s * suc k
    above s k m p e l = grind (arith, e, l)

-- The way back: a step is on one ring, at one place.
minus : (r : ℕ) → (pos_part (pos 0 -ℤ pos r) ≡ 0) × (neg_part (pos 0 -ℤ pos r) ≡ r)
unfolding ◌-ℤ◌
minus r = ground arith

place_unique :
    (r p p' : ℕ) (d : ℤ × ℤ) → 1 ≤ r → 1 ≤ p → 1 ≤ p' → OnRing r p d → OnRing r p' d → p ≡ p'
place_unique r p p' (dx, dz) one a b h k = ground (arith, minus r)

ring_unique :
    (r r' p p' : ℕ) (d : ℤ × ℤ) → 1 ≤ p → 1 ≤ p' → 1 ≤ r → OnRing r p d → OnRing r' p' d → r' ≤ r
ring_unique r r' p p' (dx, dz) a b one h k = ground (arith, minus r, minus r')

times_3 : (x : ℤ) → pos_part (x *ℤ pos 3) + 3 * neg_part x ≡ neg_part (x *ℤ pos 3) + 3 * pos_part x
unfolding ◌*ℤ◌
times_3 x = ground arith

spaced_unique : (a x y : ℤ) → a +ℤ x *ℤ pos 3 ≡ a +ℤ y *ℤ pos 3 → x ≡ y
spaced_unique a x y e = eq_of_parts x y (
    omega (
      arith,
      times_3 x,
      times_3 y,
      +ℤ_parts a (x *ℤ pos 3),
      +ℤ_parts a (y *ℤ pos 3),
      ap pos_part e,
      ap neg_part e,
    ))

unmoved : (a x : ℤ) → a ≡ a +ℤ x *ℤ pos 3 → pos_part x ≡ neg_part x
unmoved a x e = omega (arith, times_3 x, +ℤ_parts a (x *ℤ pos 3), ap pos_part e, ap neg_part e)

-- The step of a node other than node 0, with the ring and the place that it has.
abbrev step_of : ℕ → ℤ × ℤ
step_of n = ring_step (ring_of (suc n)) (pos_in_ring (ring_of (suc n)) (suc n))

step_of-OnRing :
    (n : ℕ)
    → (j : ℕ) × (p : ℕ) × (1 ≤ p)
      × (p ≤ 8 * suc j)
      × (suc n ≡ upto j + p)
      × OnRing (suc j) p (step_of n)
step_of-OnRing n =
    let (j, e, here) = ring_of-InRing n in
    let (one, all, split) = place_bounds j (suc n) here in
    (
      j,
      pos_in_ring (suc j) (suc n),
      one,
      all,
      split,
      rw e (ring_step-OnRing j (pos_in_ring (suc j) (suc n)) all),
    )

centre_apart :
    (j p : ℕ) (dx dz : ℤ)
    → 1 ≤ p
    → OnRing (suc j) p (dx, dz)
    → pos_part dx ≡ neg_part dx
    → pos_part dz ≡ neg_part dz
    → ⊥
centre_apart j p dx dz one h a b = ground (arith, minus (suc j))

step_of-injective : (m n : ℕ) → step_of m ≡ step_of n → m ≡ n
step_of-injective m n e =
    let (j, p, one, all, split, h) = step_of-OnRing m in
    let (j', p', one', all', split', h') = step_of-OnRing n in
    let k = subst (OnRing (suc j) p) e h in
    let le = ring_unique (suc j) (suc j') p p' (step_of n) one one' (omega arith) k h' in
    let ge = ring_unique (suc j') (suc j) p' p (step_of n) one' one (omega arith) h' k in
    let same : j ≡ j' = omega arith in
    let place =
      place_unique (suc j) p p' (step_of n) (omega arith) one one' k (rw (sym same) at h') in
    omega (arith, split, split', ap upto same, place)

moved : (n : ℕ) (origin : Position) → origin ≡ node_position (suc n) origin → ⊥
unfolding node_position
moved n origin e =
    let (j, p, one, all, split, h) = step_of-OnRing n in
    centre_apart j p (step_of n).0 (step_of n).1 one h
      (unmoved origin.x (step_of n).0 (ap (λ (q : Position). q.x) e))
      (unmoved origin.z (step_of n).1 (ap (λ (q : Position). q.z) e))

node_position-injective :
    (m n : ℕ) (origin : Position) → node_position m origin ≡ node_position n origin → m ≡ n
unfolding node_position
node_position-injective zero zero origin e = refl
node_position-injective zero (suc n) origin e = absurd (moved n origin e)
node_position-injective (suc m) zero origin e = absurd (moved m origin (sym e))
node_position-injective (suc m) (suc n) origin e =
    let dx = spaced_unique origin.x (step_of m).0 (step_of n).0 (ap (λ (q : Position). q.x) e) in
    let dz = spaced_unique origin.z (step_of m).1 (step_of n).1 (ap (λ (q : Position). q.z) e) in
    ap suc (step_of-injective m n (λ i. (dx i, dz i)))

-- No two nodes stand at the same place: the spiral gives different identifiers different positions.
pub node_position-apart :
    (m n : ℕ) (origin : Position) → m ≢ n → node_position m origin ≢ node_position n origin
node_position-apart m n origin ne e = ne (node_position-injective m n origin e)
