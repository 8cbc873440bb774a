-- ===== src/Pay/Transfer.antt =====
-- What a payment does to the balances.
use mathlib.Core.Path.{subst}
use cj_store.Prelude.{
  ◌≡◌, ◌⊎◌, refl, ap, sym, ◌∙◌, inl, inr, Bool, true, false, not, ◌||◌, Option, none, some, List,
  [], ◌∷◌, String, Result, ok, err, arith, if_split, if◌then◌else◌, str_eq, eq_iff, Bool-cases,
}
use cj_store.Float.{Float}
use cj_store.Messages.{F64}
use cj_store.Ledger.{User, Map, Issue, lookup, assert_invariants}
use cj_store.Ledger.Users.{is_valid_uuid_shape}
use cj_store.Shop.{
  Shop, books, mark_dirty, mark_user, update, enrolled, newcomer, ensure_user_exists,
}
use cj_store.Pay.{
  audit_answer, PayError, Paid, is_there, debited_payer, credited_payee, reported, transfer,
  from_balance, seeded, to_payee, gated_pay, pay_async,
}

-- The balance of a user, nothing for one who is not there.
abbrev pub balance_or : F64 → Option (User F64) → F64
balance_or zero_balance none = zero_balance
balance_or zero_balance (some u) = u.balance

abbrev pub balance_in : ⦃f : Float F64⦄ → String → Map (User F64) → F64
balance_in ⦃f⦄ k m = balance_or f.nought (lookup k m)

lookup-update :
    (k j : String) (g : User F64 → User F64) (m : Map (User F64))
    → str_eq k j ≡ false
    → lookup k (update j g m) ≡ lookup k m
unfolding lookup update
lookup-update k j g [] other = refl
lookup-update k j g ((i, a) ∷ rows) other =
    ground (arith, eq_iff k j, eq_iff i k, eq_iff i j, other, lookup-update k j g rows other)

abbrev changed : (User F64 → User F64) → Option (User F64) → Option (User F64)
changed g none = none
changed g (some u) = some (g u)

lookup-update_self :
    (k : String) (g : User F64 → User F64) (m : Map (User F64))
    → lookup k (update k g m) ≡ changed g (lookup k m)
unfolding lookup update
lookup-update_self k g [] = refl
lookup-update_self k g ((i, a) ∷ rows) = elim (Bool-cases (str_eq i k)) [
  | inl e ↦ ground (arith, e)
  | inr e ↦ ground (arith, e, lookup-update_self k g rows)
]

-- All balances as they were.
abbrev pub SameBalances : ⦃f : Float F64⦄ → Shop → Shop → Type 0
SameBalances sh sh' = (k : String) → balance_in k sh'.users ≡ balance_in k sh.users

-- The payer's balance is less by the amount, the payee's is more by it, and no other has changed.
abbrev pub Moved : ⦃f : Float F64⦄ → String → String → F64 → Shop → Shop → Type 0
Moved ⦃f⦄ payer payee amount sh sh' =
    (str_eq payer payee ≡ false)
    × (f.lt (balance_in payer sh.users) amount ≡ false)
    × (balance_in payer sh'.users ≡ f.sub (balance_in payer sh.users) amount)
    × (balance_in payee sh'.users ≡ f.add (balance_in payee sh.users) amount)
    × ((k : String)
        → str_eq k payer ≡ false
        → str_eq k payee ≡ false
        → balance_in k sh'.users ≡ balance_in k sh.users)

module _ ⦃f : Float F64⦄ where
  lookup-cons :
      (k i : String) (a : User F64) (m : Map (User F64))
      → lookup k ((i, a) ∷ m) ≡ (if str_eq i k then some a else lookup k m)
  unfolding lookup
  lookup-cons k i a m = refl

  -- To add a payee who is not there changes no balance.
  seeded-SameBalances : (name uuid : String) (sh : Shop) → SameBalances sh (seeded name uuid sh)
  unfolding seeded ensure_user_exists lookup
  seeded-SameBalances name uuid sh k = go (lookup uuid sh.users) refl
    where
      added :
          lookup uuid sh.users ≡ none
          → balance_in k ((uuid, newcomer name uuid) ∷ sh.users) ≡ balance_in k sh.users
      added missing = elim (Bool-cases (str_eq uuid k)) [
        | inl e ↦
            let gone : lookup k sh.users ≡ none =
              subst (λ (j : String). lookup j sh.users ≡ none) ((eq_iff uuid k).0 e) missing in
            ap (balance_or f.nought)
              (ap (λ (b : Bool). if b then some (newcomer name uuid) else lookup k sh.users) e)
            ∙ sym (ap (balance_or f.nought) gone)
        | inr e ↦
            ap (balance_or f.nought)
              (ap (λ (b : Bool). if b then some (newcomer name uuid) else lookup k sh.users) e)
      ]

      go :
          (x : Option (User F64))
          → lookup uuid sh.users ≡ x
          → balance_in k (if is_there x then sh else ensure_user_exists name uuid sh).users
            ≡ balance_in k sh.users
      go (some u) e = refl
      go none e =
          if_split (λ (sh' : Shop). balance_in k sh'.users ≡ balance_in k sh.users)
            (not (is_valid_uuid_shape uuid)) {y = enrolled name uuid sh (lookup uuid sh.users)}
            (λ _. refl)
            (λ _.
              ap (λ (x : Option (User F64)). balance_in k (enrolled name uuid sh x).users) e
              ∙ added e)

  -- The books after the two changes, for different users.
  both-Moved :
      (name payer payee : String) (amount : F64) (sh : Shop) (u v : User F64)
      → str_eq payer payee ≡ false
      → lookup payer sh.users ≡ some u
      → lookup payee sh.users ≡ some v
      → f.lt u.balance amount ≡ false
      → Moved payer payee amount sh
          (credited_payee payee amount (debited_payer name payer amount sh))
  both-Moved name payer payee amount sh u v apart there there' enough =
      let g = λ (u : User F64). record u { balance = f.sub u.balance amount; username = name } in
      let h = λ (u : User F64). record u { balance = f.add u.balance amount } in
      let apart' : str_eq payee payer ≡ false =
        ground (arith, eq_iff payer payee, eq_iff payee payer, apart) in
      let b = balance_or f.nought in
      (
        apart,
        rw there enough,
        ap b (lookup-update payer payee h (update payer g sh.users) apart)
            ∙ ap b (lookup-update_self payer g sh.users)
            ∙ ap (λ x. b (changed g x)) there
            ∙ sym (ap (λ x. f.sub (b x) amount) there),
        ap b (lookup-update_self payee h (update payer g sh.users))
            ∙ ap (λ x. b (changed h x)) (lookup-update payee payer g sh.users apart' ∙ there')
            ∙ sym (ap (λ x. f.add (b x) amount) there'),
        λ k other other'.
            ap b (lookup-update k payee h (update payer g sh.users) other')
            ∙ ap b (lookup-update k payer g sh.users other),
      )

  seeded-there :
      (name uuid : String) (sh : Shop)
      → is_valid_uuid_shape uuid ≡ true
      → (v : User F64) × (lookup uuid (seeded name uuid sh).users ≡ some v)
  unfolding seeded ensure_user_exists lookup
  seeded-there name uuid sh valid = go (lookup uuid sh.users) refl
    where
      enrolled_there :
          lookup uuid sh.users ≡ none
          → lookup uuid (ensure_user_exists name uuid sh).users ≡ some (newcomer name uuid)
      enrolled_there missing =
          ap
            (λ (b : Bool).
              lookup uuid
                (if not b then sh else enrolled name uuid sh (lookup uuid sh.users)).users)
            valid
          ∙ ap (λ (x : Option (User F64)). lookup uuid (enrolled name uuid sh x).users) missing
          ∙ ap (λ (b : Bool). if b then some (newcomer name uuid) else lookup uuid sh.users)
              ((eq_iff uuid uuid).1 refl)

      go :
          (x : Option (User F64))
          → lookup uuid sh.users ≡ x
          → (v : User F64) × (lookup uuid
                (if is_there x then sh else ensure_user_exists name uuid sh).users
              ≡ some v)
      go (some v) e = (v, e)
      go none e = (newcomer name uuid, enrolled_there e)

  from_seeded :
      (payer payee : String) (amount : F64) (sh sh' last : Shop)
      → SameBalances sh sh'
      → Moved payer payee amount sh' last
      → Moved payer payee amount sh last
  from_seeded payer payee amount sh sh' last same (apart, enough, less, more, others) = (
    apart,
    ap (λ b. f.lt b amount) (sym (same payer)) ∙ enough,
    less ∙ ap (λ b. f.sub b amount) (same payer),
    more ∙ ap (λ b. f.add b amount) (same payee),
    λ k other other'. others k other other' ∙ same k,
  )

-- A payment answers with an error and no balance has changed; or the amount has moved from the payer
-- to the payee, and the answer is `ok` or the issues of the audit after it.
abbrev pub PayEnd : ⦃f : Float F64⦄ → String → Option String → F64 → Shop → Paid → Type 0
PayEnd payer answer amount sh (sh', r) =
    (SameBalances sh sh' × (e : PayError) × (r ≡ err e))
    ⊎ ((payee : String) × (answer ≡ some payee)
        × Moved payer payee amount sh sh'
        × ((r ≡ ok tt)
            ⊎ ((issues : List (Issue F64)) × (r ≡ err (PayError.invariant_violation issues)))))

module _ ⦃f : Float F64⦄ (name payer payee_name : String) (amount : F64) (sh : Shop) where
  reported-PayEnd :
      (payee : String) (sh' : Shop)
      → Moved payer payee amount sh sh'
      → PayEnd payer (some payee) amount sh (reported sh')
  unfolding reported
  reported-PayEnd payee sh' moved =
      inr (payee, refl, moved, go (assert_invariants true (books sh')).0)
    where
      go :
          (x : Result (Unit {0}) (List (Issue F64)))
          → (audit_answer x ≡ ok tt)
            ⊎ ((issues : List (Issue F64)) × (audit_answer x
                  ≡ err (PayError.invariant_violation issues)))
      go (ok _) = inl refl
      go (err issues) = inr (issues, refl)

  from_balance-PayEnd :
      (payee : String) (now : Shop) (x : Option (User F64)) (v : User F64)
      → SameBalances sh now
      → lookup payer now.users ≡ x
      → lookup payee now.users ≡ some v
      → str_eq payer payee ≡ false
      → PayEnd payer (some payee) amount sh (from_balance name payer payee amount now x)
  unfolding transfer
  from_balance-PayEnd payee now none v same there there' apart =
      inl (same, PayError.unknown_user payer, refl)
  from_balance-PayEnd payee now (some u) v same there there' apart =
      if_split (PayEnd payer (some payee) amount sh) (f.lt u.balance amount)
        {x = (now, err (PayError.insufficient_balance amount u.balance))}
        {y = transfer name payer payee amount now}
        (λ _. inl (same, PayError.insufficient_balance amount u.balance, refl))
        (λ enough.
          let g =
            λ (u : User F64). record u { balance = f.sub u.balance amount; username = name } in
          let apart' : str_eq payee payer ≡ false =
            ground (arith, eq_iff payer payee, eq_iff payee payer, apart) in
          let found = lookup-update payee payer g now.users apart' ∙ there' in
          let done : Shop = mark_user payee (
            mark_user payer
              (mark_dirty (credited_payee payee amount (debited_payer name payer amount now)))) in
          rw (found, transfer)
            (reported-PayEnd payee done (
              from_seeded payer payee amount sh now done same
                (both-Moved name payer payee amount now u v apart there there' enough))))

  to_payee-PayEnd :
      (x : Option String)
      → ((uuid : String) → x ≡ some uuid → is_valid_uuid_shape uuid ≡ true)
      → PayEnd payer x amount sh (to_payee name payer payee_name amount sh x)
  to_payee-PayEnd none valid = inl (λ k. refl, PayError.unresolved, refl)
  to_payee-PayEnd (some payee) valid =
      let now : Shop = seeded payee_name payee sh in
      let x = lookup payer now.users in
      let (v, there) = seeded-there payee_name payee sh (valid payee refl) in
      if_split (PayEnd payer (some payee) amount sh) (str_eq payer payee)
        {x = (sh, err PayError.paying_oneself)}
        {y = if not (is_there (lookup payer sh.users))
          then (sh, err PayError.payer_unknown)
          else from_balance name payer payee amount now x}
        (λ _. inl (λ k. refl, PayError.paying_oneself, refl))
        (λ apart.
          if_split (PayEnd payer (some payee) amount sh) (not (is_there (lookup payer sh.users)))
            {x = (sh, err PayError.payer_unknown)} {y = from_balance name payer payee amount now x}
            (λ _. inl (λ k. refl, PayError.payer_unknown, refl))
            (λ _.
              from_balance-PayEnd payee now x v (seeded-SameBalances payee_name payee sh) refl there
                apart))

-- A payment either answers with an error and has changed no balance, or it has moved the amount: the
-- name was resolved to another user than the payer, the payer's balance was not below the amount and
-- is less by it, the payee's is more by it, nobody else's has changed, and the answer is `ok`, or an
-- error with the issues of the audit that follows. An identifier to which the name is resolved has to
-- have the shape of a uuid.
pub pay_async-PayEnd :
    ⦃f : Float F64⦄ (resolve : String → Option String) (name payer payee_name : String)
    (amount : F64) (sh : Shop)
    → ((uuid : String) → resolve payee_name ≡ some uuid → is_valid_uuid_shape uuid ≡ true)
    → PayEnd payer
        (resolve payee_name)
        amount
        sh
        (pay_async resolve name payer payee_name amount sh)
unfolding pay_async
pay_async-PayEnd ⦃f⦄ resolve name payer payee_name amount sh valid =
    go (assert_invariants false (books sh)).0
  where
    go :
        (x : Result (Unit {0}) (List (Issue F64)))
        → PayEnd payer
            (resolve payee_name)
            amount
            sh
            (gated_pay resolve name payer payee_name amount sh x)
    go (err issues) = inl (λ k. refl, PayError.invariant_violation issues, refl)
    go (ok _) =
        if_split (PayEnd payer (resolve payee_name) amount sh)
          (not (f.is_finite amount) || f.le amount f.nought)
          {x = (sh, err PayError.amount_not_positive)}
          {y = to_payee name payer payee_name amount sh (resolve payee_name)}
          (λ _. inl (λ k. refl, PayError.amount_not_positive, refl))
          (λ _. to_payee-PayEnd name payer payee_name amount sh (resolve payee_name) valid)
