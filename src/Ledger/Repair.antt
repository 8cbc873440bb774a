-- ===== src/Ledger/Repair.antt =====
-- What a repair of the books comes to.
use cj_store.Prelude.{
  ◌≡◌, refl, ap, ap₂, sym, inl, inr, Bool, true, false, not, ◌||◌, List, [], ◌∷◌, String, All,
  Bool-cases, arith, map,
}
use cj_store.Prelude.Int.{pos, eq_ℤ_iff}
use cj_store.Float.{Float}
use cj_store.Types.{Storage}
use cj_store.Storage.{total_item_amount}
use cj_store.Ledger.{Pair, Map, Books, Issue, has_drift, audit_pair, audit_pairs, audit_state}

-- A pair's cached stock is what the chests hold.
abbrev pub Agrees {ℓ} : {W : Type ℓ} → Storage → Pair W → Type 0
Agrees s p = p.item_stock ≡ total_item_amount p.item s

abbrev pub AllAgree {ℓ} : {W : Type ℓ} → Storage → Map (Pair W) → Type 0
AllAgree s = All (λ (x : String × Pair _). Agrees s x.1)

-- All but the cached stock.
abbrev pub besides_stock {ℓ} : {W : Type ℓ} → String × Pair W → String × Pair W
besides_stock (k, p) = (k, record p { item_stock = pos 0 })

module _ {ℓ} {W : Type ℓ} ⦃f : Float W⦄ where
  not_drifted : (s : Storage) (p : Pair W) → has_drift s p ≡ false → Agrees s p
  not_drifted s p h = (eq_ℤ_iff p.item_stock (total_item_amount p.item s)).0 (shut _ h)
    where
      shut : (b : Bool) → not b ≡ false → b ≡ true
      shut b h = ground (arith, h)

  audit_pair-Agrees :
      (s : Storage) (p : Pair W)
      → let p' = (audit_pair true s p).2 in
        Agrees s p' × (record p { item_stock = pos 0 } ≡ record p' { item_stock = pos 0 })
  unfolding audit_pair
  audit_pair-Agrees s p = elim (Bool-cases (has_drift s p)) [
    | inl drifted ↦ rw (drifted, audit_pair) (refl, refl)
    | inr fine ↦ rw (fine, audit_pair) (not_drifted s p fine, refl)
  ]

  audit_pairs-AllAgree :
      (s : Storage) (ps : Map (Pair W))
      → let after = (audit_pairs true s ps).2 in
        AllAgree s after × (map besides_stock after ≡ map besides_stock ps)
  unfolding audit_pairs
  audit_pairs-AllAgree s [] = (tt, refl)
  audit_pairs-AllAgree s ((k, p) ∷ ps) =
      let (agrees, same) = audit_pair-Agrees s p in
      let (agree, sames) = audit_pairs-AllAgree s ps in
      ((agrees, agree), ap₂ (λ (q : Pair W) (qs : Map (Pair W)). (k, q) ∷ qs) (sym same) sames)

  audit_pair_agreeing : (s : Storage) (p : Pair W) → Agrees s p → (audit_pair true s p).1 ≡ false
  unfolding audit_pair
  audit_pair_agreeing s p e = rw (no_drift, audit_pair) refl
    where
      no_drift : has_drift s p ≡ false
      no_drift = ap not ((eq_ℤ_iff p.item_stock (total_item_amount p.item s)).1 e)

  audit_pairs_agreeing :
      (s : Storage) (ps : Map (Pair W)) → AllAgree s ps → (audit_pairs true s ps).1 ≡ false
  unfolding audit_pairs
  audit_pairs_agreeing s [] h = refl
  audit_pairs_agreeing s ((k, p) ∷ ps) (e, h) =
      neither _ _ (audit_pair_agreeing s p e) (audit_pairs_agreeing s ps h)
    where
      neither : (a b : Bool) → a ≡ false → b ≡ false → (a || b) ≡ false
      neither a b h k = ground (arith, h, k)

  -- What an audit with repair does to the books.
  abbrev pub Repairs : Books W → List (Issue W) × Bool × Books W → Type ℓ
  Repairs b (_, _, b') =
      AllAgree b'.storage b'.pairs
      × (map besides_stock b'.pairs ≡ map besides_stock b.pairs)
      × (b'.users ≡ b.users)
      × (b'.storage ≡ b.storage)
      × ((audit_state true b').1 ≡ false)

  -- After an audit with repair the cached stock of every pair is what its chests hold, a second audit
  -- repairs nothing more, and nothing else in the books has changed.
  pub audit_state-Repairs : (b : Books W) → Repairs b (audit_state true b)
  unfolding audit_state
  audit_state-Repairs b =
      let (agree, same) = audit_pairs-AllAgree b.storage b.pairs in
      (
        agree,
        same,
        refl,
        refl,
        audit_pairs_agreeing b.storage (audit_pairs true b.storage b.pairs).2 agree,
      )
