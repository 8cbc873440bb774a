-- ===== src/Pay.antt =====
-- src/store/handlers/info.rs: `pay_async`, a payment from one player to another, over any `f64`
-- operations. What `mojang::resolve_user_uuid` answers for a name is a parameter.
pub mod Transfer
use cj_store.Prelude.{
  Bool, true, false, not, ◌||◌, Option, none, some, List, String, Result, ok, err, if◌then◌else◌,
  str_eq,
}
use cj_store.Float.{Float}
use cj_store.Messages.{F64}
use cj_store.Ledger.{User, Issue, lookup, assert_invariants, refuse_issues}
use cj_store.Shop.{Shop, books, mark_dirty, mark_user, update, ensure_user_exists}

pub data PayError : Type 0 where
  invariant_violation : List (Issue F64) → PayError
  amount_not_positive unresolved paying_oneself payer_unknown : PayError
  insufficient_balance : F64 → F64 → PayError
  unknown_user : String → PayError

abbrev pub Paid : Type 0
Paid = Shop × Result (Unit {0}) PayError

abbrev pub is_there : Option (User F64) → Bool
is_there none = false
is_there (some _) = true

module _ ⦃f : Float F64⦄ where
  abbrev pub debited_payer : String → String → F64 → Shop → Shop
  debited_payer payer_username payer_uuid amount sh = record sh {
    users =
        update payer_uuid
          (λ (u : User F64). record u {
            balance = f.sub u.balance amount;
            username = payer_username;
          })
          sh.users;
  }

  abbrev pub credited_payee : String → F64 → Shop → Shop
  credited_payee payee_uuid amount sh = record sh {
    users =
        update payee_uuid (λ (u : User F64). record u { balance = f.add u.balance amount })
          sh.users;
  }

  -- The audit after a payment: its issues are an error for the caller.
  abbrev pub audit_answer : Result (Unit {0}) (List (Issue F64)) → Result (Unit {0}) PayError
  audit_answer (ok _) = ok tt
  audit_answer (err issues) = err (invariant_violation issues)

  unfoldable pub reported : Shop → Paid
  unfolding assert_invariants
  reported sh =
      let (answer, b) = assert_invariants true (books sh) in
      (record sh { pairs = b.pairs }, audit_answer answer)

  -- The payer is there and can pay.
  unfoldable pub transfer : String → String → String → F64 → Shop → Paid
  unfolding lookup update reported
  transfer payer_username payer_uuid payee_uuid amount sh =
      let sh' : Shop = debited_payer payer_username payer_uuid amount sh in
      elim (lookup payee_uuid sh'.users) [
        | none ↦ (sh', err (unknown_user payee_uuid))
        | some _ ↦ reported (
            mark_user payee_uuid
              (mark_user payer_uuid (mark_dirty (credited_payee payee_uuid amount sh'))))
      ]

  abbrev pub from_balance : String → String → String → F64 → Shop → Option (User F64) → Paid
  from_balance payer_username payer_uuid payee_uuid amount sh none =
      (sh, err (unknown_user payer_uuid))
  from_balance payer_username payer_uuid payee_uuid amount sh (some u) =
      if f.lt u.balance amount
      then (sh, err (insufficient_balance amount u.balance))
      else transfer payer_username payer_uuid payee_uuid amount sh

  -- A payee who is not there yet is added.
  unfoldable pub seeded : String → String → Shop → Shop
  unfolding ensure_user_exists lookup
  seeded payee_username payee_uuid sh =
      if is_there (lookup payee_uuid sh.users)
      then sh
      else ensure_user_exists payee_username payee_uuid sh

  abbrev pub to_payee : String → String → String → F64 → Shop → Option String → Paid
  to_payee payer_username payer_uuid payee_username amount sh none = (sh, err unresolved)
  to_payee payer_username payer_uuid payee_username amount sh (some payee_uuid) =
      let sh' : Shop = seeded payee_username payee_uuid sh in
      if str_eq payer_uuid payee_uuid
      then (sh, err paying_oneself)
      else if not (is_there (lookup payer_uuid sh.users))
      then (sh, err payer_unknown)
      else from_balance payer_username payer_uuid payee_uuid amount sh'
          (lookup payer_uuid sh'.users)

  abbrev pub gated_pay :
      (String → Option String)
      → String
      → String
      → String
      → F64
      → Shop
      → Result (Unit {0}) (List (Issue F64))
      → Paid
  gated_pay resolve payer_username payer_uuid payee_username amount sh (err issues) =
      (sh, err (invariant_violation issues))
  gated_pay resolve payer_username payer_uuid payee_username amount sh (ok _) =
      if not (f.is_finite amount) || f.le amount f.nought
      then (sh, err amount_not_positive)
      else to_payee payer_username payer_uuid payee_username amount sh (resolve payee_username)

  unfoldable pub pay_async : (String → Option String) → String → String → String → F64 → Shop → Paid
  unfolding assert_invariants transfer seeded lookup
  pay_async resolve payer_username payer_uuid payee_username amount sh =
      gated_pay resolve payer_username payer_uuid payee_username amount sh
        (assert_invariants false (books sh)).0
