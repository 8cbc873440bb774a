-- ===== src/Rollback/Accounts.antt =====
-- The accounts of a rollback, and the instructions that it sends.
use mathlib.Core.List.{append-nil, append_assoc}
use cj_store.Prelude.{
  ℕ, suc, ◌+◌, ◌-◌, ◌≤◌, ◌≡◌, refl, ap, ap₂, sym, ◌∙◌, ◌⊎◌, inl, inr, true, none, some, List, [],
  ◌∷◌, ◌++◌, String, Result, ok, err, ltb, length, arith,
}
use cj_store.Prelude.Int.{ℤ, pos, max_ℤ, pos_part, +ℤ-pos}
use cj_store.Types.{ChestTransfer}
use cj_store.Storage.{wrap_i32}
use cj_store.Storage.Withdraw.{planned}
use cj_store.ChestSync.{Depot, SyncError, apply_chest_sync}
use cj_store.Rollback.{
  Instruction, Reply, reported, refused, dropped, timed_out, Desk, interact, taken, RollbackResult,
  no_rollback, deposit_of, stuck, returned, skipped, with_sync, answered, deposit_steps,
  deposit_transfers, saturating_add,
}

-- The items whose deposit the bot confirms: the steps and the answers side by side.
abbrev pub confirmed : List ChestTransfer → List Reply → ℕ
confirmed [] rs = 0
confirmed (t ∷ ts) [] = 0
confirmed (t ∷ ts) (reported _ ∷ rs) = pos_part t.amount + confirmed ts rs
confirmed (t ∷ ts) (refused _ ∷ rs) = confirmed ts rs
confirmed (t ∷ ts) (dropped ∷ rs) = confirmed ts rs
confirmed (t ∷ ts) (timed_out ∷ rs) = confirmed ts rs

confirmed-planned : (ts : List ChestTransfer) (rs : List Reply) → confirmed ts rs ≤ planned ts
confirmed-planned [] rs = omega arith
confirmed-planned (t ∷ ts) [] = omega arith
confirmed-planned (t ∷ ts) (reported _ ∷ rs) = omega (arith, confirmed-planned ts rs)
confirmed-planned (t ∷ ts) (refused _ ∷ rs) = omega (arith, confirmed-planned ts rs)
confirmed-planned (t ∷ ts) (dropped ∷ rs) = omega (arith, confirmed-planned ts rs)
confirmed-planned (t ∷ ts) (timed_out ∷ rs) = omega (arith, confirmed-planned ts rs)

added : (a n : ℕ) → a + n ≤ 2147483647 → saturating_add (pos a) (pos n) ≡ pos (a + n)
added a n h = rw (+ℤ-pos a n) (ground (arith, h))

gained : (x : ℤ) → max_ℤ x (pos 0) ≡ pos (pos_part x)
gained x = ground arith

wrap_fits : (n : ℕ) → n ≤ 2147483647 → wrap_i32 n ≡ pos n
wrap_fits n h = ground (arith, h)

-- The counters: `a` items returned, `b` items stuck, `k` steps, `u` items that were not planned.
abbrev Counts : RollbackResult → ℕ → ℕ → ℕ → ℤ → Type 0
Counts r a b k u =
    (r.items_returned ≡ pos a)
    × (r.items_stuck_on_bot ≡ pos b)
    × (r.operations_succeeded + r.operations_failed ≡ k)
    × (r.items_unplanned ≡ u)

stuck-Counts :
    (t : ChestTransfer) (r : RollbackResult) (a b k : ℕ) (u : ℤ)
    → Counts r a b k u
    → b + pos_part t.amount ≤ 2147483647
    → Counts (stuck t r) a (b + pos_part t.amount) (k + 1) u
stuck-Counts t r a b k u (x, y, z, w) h =
    (x, rw (y, gained t.amount) (added b (pos_part t.amount) h), omega (arith, z), w)

returned-Counts :
    (t : ChestTransfer) (r : RollbackResult) (a b k : ℕ) (u : ℤ)
    → Counts r a b k u
    → a + pos_part t.amount ≤ 2147483647
    → Counts (returned t r) (a + pos_part t.amount) b k u
returned-Counts t r a b k u (x, y, z, w) h =
    (rw (x, gained t.amount) (added a (pos_part t.amount) h), y, z, w)

skipped-Counts :
    (ts : List ChestTransfer) (r : RollbackResult) (a b k : ℕ) (u : ℤ)
    → Counts r a b k u
    → b + planned ts ≤ 2147483647
    → Counts (skipped ts r) a (b + planned ts) (k + length ts) u
skipped-Counts [] r a b k u (x, y, z, w) h = (x, y ∙ ap pos (omega arith), omega (arith, z), w)
skipped-Counts (t ∷ ts) r a b k u (x, y, z, w) h = rw (some_left (length ts)) (
  x,
  rw (y, wrap_fits (planned (t ∷ ts)) (omega (arith, h))) (added b (planned (t ∷ ts)) h),
  omega (arith, z),
  w,
)
  where
    some_left : (n : ℕ) → ltb 0 (suc n) ≡ true
    some_left n = ground arith

with_sync-Counts :
    (t : ChestTransfer) (r : RollbackResult) (d : Desk) (x : Result Depot SyncError) (a b k : ℕ)
    (u : ℤ)
    → Counts r a b k u
    → a + pos_part t.amount ≤ 2147483647
    → Counts (with_sync t r d x).0 (a + pos_part t.amount) b (k + 1) u
with_sync-Counts t r d (ok depot) a b k u (x, y, z, w) h =
    returned-Counts t (record r { operations_succeeded = r.operations_succeeded + 1 }) a b (k + 1) u
      (x, y, omega (arith, z), w) h
with_sync-Counts t r d (err e) a b k u (x, y, z, w) h =
    returned-Counts t (record r { operations_failed = r.operations_failed + 1 }) a b (k + 1) u
      (x, y, omega (arith, z), w) h

-- A step leaves what is sent and what is to come alone.
abbrev SameLine : Desk → Desk → Type 0
SameLine d d' = (d'.sent ≡ d.sent) × (d'.replies ≡ d.replies)

answered-SameLine :
    (t : ChestTransfer) (r : RollbackResult) (d : Desk) (reply : Reply)
    → SameLine d (answered t r d reply).1
answered-SameLine t r d (reported report) = go (apply_chest_sync report d.depot)
  where
    go : (x : Result Depot SyncError) → SameLine d (with_sync t r d x).1
    go (ok depot) = (refl, refl)
    go (err e) = (refl, refl)
answered-SameLine t r d (refused _) = (refl, refl)
answered-SameLine t r d dropped = (refl, refl)
answered-SameLine t r d timed_out = (refl, refl)

-- What the bot confirms of one step.
abbrev got : ChestTransfer → Reply → ℕ
got t (reported _) = pos_part t.amount
got t (refused _) = 0
got t dropped = 0
got t timed_out = 0

confirmed-step :
    (t : ChestTransfer) (ts : List ChestTransfer) (reply : Reply) (rs : List Reply)
    → (confirmed (t ∷ ts) (reply ∷ rs) ≡ got t reply + confirmed ts rs)
      × (got t reply ≤ pos_part t.amount)
confirmed-step t ts (reported _) rs = (refl, omega arith)
confirmed-step t ts (refused _) rs = (omega arith, omega arith)
confirmed-step t ts dropped rs = (omega arith, omega arith)
confirmed-step t ts timed_out rs = (omega arith, omega arith)

kept :
    (t : ChestTransfer) (r : RollbackResult) (a b k : ℕ) (u : ℤ)
    → Counts r a b k u
    → a + b + pos_part t.amount ≤ 2147483647
    → Counts (stuck t r) (a + 0) (b + (pos_part t.amount - 0)) (k + 1) u
kept t r a b k u c h =
    let (x, y, z, w) = stuck-Counts t r a b k u c (omega (arith, h)) in
    (x ∙ ap pos (omega arith), y ∙ ap pos (omega arith), z, w)

answered-Counts :
    (t : ChestTransfer) (r : RollbackResult) (d : Desk) (reply : Reply) (a b k : ℕ) (u : ℤ)
    → Counts r a b k u
    → a + b + pos_part t.amount ≤ 2147483647
    → Counts
        (answered t r d reply).0
        (a + got t reply)
        (b + (pos_part t.amount - got t reply))
        (k + 1)
        u
answered-Counts t r d (reported report) a b k u c h =
    let (x, y, z, w) =
      with_sync-Counts t r d (apply_chest_sync report d.depot) a b k u c (omega (arith, h)) in
    (x, y ∙ ap pos (omega arith), z, w)
answered-Counts t r d (refused _) a b k u c h = kept t r a b k u c h
answered-Counts t r d dropped a b k u c h = kept t r a b k u c h
answered-Counts t r d timed_out a b k u c h = kept t r a b k u c h

-- The instructions that go out: one for each step while the bot answers.
abbrev pub sent_for :
    (ChestTransfer → Instruction) → List ChestTransfer → List Reply → List Instruction
sent_for instruction [] rs = []
sent_for instruction (t ∷ ts) [] = []
sent_for instruction (t ∷ ts) (r ∷ rs) = instruction t ∷ sent_for instruction ts rs

-- What a whole rollback does, from counters that are not zero.
abbrev Steps :
    String → ℤ → List ChestTransfer → ℕ → ℕ → ℕ → ℤ → Desk → RollbackResult × Desk → Type 0
Steps item stack_size ts a b k u d (r, d') =
    Counts r (a + confirmed ts d.replies) (b + (planned ts - confirmed ts d.replies))
      (k + length ts) u
    × (d'.sent ≡ d.sent ++ sent_for (deposit_of item stack_size) ts d.replies)

next_reply :
    (d : Desk) → (d.replies ≡ []) ⊎ ((r : Reply) × (rs : List Reply) × (d.replies ≡ r ∷ rs))
next_reply d = go d.replies
  where
    go : (xs : List Reply) → (xs ≡ []) ⊎ ((r : Reply) × (rs : List Reply) × (xs ≡ r ∷ rs))
    go [] = inl refl
    go (r ∷ rs) = inr (r, rs, refl)

interact_closed : (i : Instruction) (d : Desk) → d.replies ≡ [] → interact i d ≡ (d, none)
unfolding interact
interact_closed i d e = ap (taken i d) e

-- The desk after an instruction went out.
abbrev went_out : Instruction → List Reply → Desk → Desk
went_out i rs d = record d { sent = d.sent ++ i ∷ []; replies = rs }

interact_taken :
    (i : Instruction) (d : Desk) (r : Reply) (rs : List Reply)
    → d.replies ≡ r ∷ rs
    → interact i d ≡ (went_out i rs d, some r)
unfolding interact
interact_taken i d r rs e = ap (taken i d) e

deposit_steps_closed :
    (item : String) (stack_size : ℤ) (t : ChestTransfer) (ts : List ChestTransfer)
    (r : RollbackResult) (d : Desk)
    → d.replies ≡ []
    → deposit_steps item stack_size (t ∷ ts) r d ≡ (skipped ts (stuck t r), d)
unfolding deposit_steps
deposit_steps_closed item stack_size t ts r d e =
    let x = interact_closed (deposit_of item stack_size t) d e in
    rw (ap (λ y. y.1) x, ap (λ y. y.0) x, deposit_steps) refl

deposit_steps_taken :
    (item : String) (stack_size : ℤ) (t : ChestTransfer) (ts : List ChestTransfer)
    (r : RollbackResult) (d : Desk) (reply : Reply) (rs : List Reply)
    → d.replies ≡ reply ∷ rs
    → deposit_steps item stack_size (t ∷ ts) r d ≡ (
        let (r', d') = answered t r (went_out (deposit_of item stack_size t) rs d) reply in
        deposit_steps item stack_size ts r' d')
unfolding deposit_steps
deposit_steps_taken item stack_size t ts r d reply rs e =
    let x = interact_taken (deposit_of item stack_size t) d reply rs e in
    rw (ap (λ y. y.1) x, ap (λ y. y.0) x, deposit_steps) refl

deposit_steps-Steps :
    (item : String) (stack_size : ℤ) (ts : List ChestTransfer) (r : RollbackResult) (d : Desk)
    (a b k : ℕ) (u : ℤ)
    → Counts r a b k u
    → a + b + planned ts ≤ 2147483647
    → Steps item stack_size ts a b k u d (deposit_steps item stack_size ts r d)
unfolding deposit_steps interact
deposit_steps-Steps item stack_size [] r d a b k u (x, y, z, w) h = (
  (x ∙ ap pos (omega arith), y ∙ ap pos (omega arith), omega (arith, z), w),
  sym (append-nil d.sent),
)
deposit_steps-Steps item stack_size (t ∷ ts) r d a b k u c h = elim (next_reply d) [
  | inl closed ↦
      rw (deposit_steps_closed item stack_size t ts r d closed, closed)
        (
          let (x, y, z, w) =
                skipped-Counts ts (stuck t r) a (b + pos_part t.amount) (k + 1) u
                  (stuck-Counts t r a b k u c (omega (arith, h))) (omega (arith, h)) in
              (x ∙ ap pos (omega arith), y ∙ ap pos (omega arith), omega (arith, z), w),
          sym (append-nil d.sent),
        )
  | inr (reply, rs, more) ↦
      rw (deposit_steps_taken item stack_size t ts r d reply rs more, more)
        (let d' : Desk = went_out (deposit_of item stack_size t) rs d in
          let (same_sent, same_replies) = answered-SameLine t r d' reply in
          let (e, le) = confirmed-step t ts reply rs in
          let ((x, y, z, w), s) =
            deposit_steps-Steps item stack_size ts (answered t r d' reply).0
              (answered t r d' reply).1 (a + got t reply) (b + (pos_part t.amount - got t reply))
              (k + 1) u (answered-Counts t r d' reply a b k u c (omega (arith, h)))
              (omega (arith, h, le)) in
          let again = ap (confirmed ts) same_replies in
          let fits = confirmed-planned ts rs in
          (
            (
              x ∙ ap pos (omega (arith, again, e)),
              y ∙ ap pos (omega (arith, again, e, le, fits)),
              omega (arith, z),
              w,
            ),
            s
                ∙ ap₂ ◌++◌ same_sent (ap (sent_for (deposit_of item stack_size) ts) same_replies)
                ∙ append_assoc d.sent (deposit_of item stack_size t ∷ [])
                    (sent_for (deposit_of item stack_size) ts rs),
          ))
]

-- The deposits that a rollback sends, whatever its counters.
pub deposit_steps-sent :
    (item : String) (stack_size : ℤ) (ts : List ChestTransfer) (r : RollbackResult) (d : Desk)
    → (deposit_steps item stack_size ts r d).1.sent
      ≡ d.sent ++ sent_for (deposit_of item stack_size) ts d.replies
unfolding deposit_steps
deposit_steps-sent item stack_size [] r d = sym (append-nil d.sent)
deposit_steps-sent item stack_size (t ∷ ts) r d = elim (next_reply d) [
  | inl closed ↦
      rw (deposit_steps_closed item stack_size t ts r d closed, closed) (sym (append-nil d.sent))
  | inr (reply, rs, more) ↦
      rw (deposit_steps_taken item stack_size t ts r d reply rs more, more)
        (let d' : Desk = went_out (deposit_of item stack_size t) rs d in
          let (same_sent, same_replies) = answered-SameLine t r d' reply in
          deposit_steps-sent item stack_size ts (answered t r d' reply).0 (answered t r d' reply).1
          ∙ ap₂ ◌++◌ same_sent (ap (sent_for (deposit_of item stack_size) ts) same_replies)
          ∙ append_assoc d.sent (deposit_of item stack_size t ∷ [])
              (sent_for (deposit_of item stack_size) ts rs))
]

-- What a rollback comes to.
abbrev pub Accounts : String → ℤ → List ChestTransfer → Desk → RollbackResult × Desk → Type 0
Accounts item stack_size ts d (r, d') =
    (r.items_returned ≡ pos (confirmed ts d.replies))
    × (r.items_stuck_on_bot ≡ pos (planned ts - confirmed ts d.replies))
    × (confirmed ts d.replies ≤ planned ts)
    × (r.operations_succeeded + r.operations_failed ≡ length ts)
    × (d'.sent ≡ d.sent ++ sent_for (deposit_of item stack_size) ts d.replies)

-- A rollback accounts for every item and every step, whatever the bot answers: the items of the
-- steps that the bot confirms count as returned and all others as stuck on the bot, each step counts
-- as succeeded or failed, and one deposit is sent for each step until the channel closes. The
-- amounts come to no more than an `i32` holds.
pub deposit_transfers-Accounts :
    (ts : List ChestTransfer) (item : String) (stack_size : ℤ) (d : Desk)
    → planned ts ≤ 2147483647
    → Accounts item stack_size ts d (deposit_transfers ts item stack_size d)
unfolding deposit_transfers
deposit_transfers-Accounts ts item stack_size d fits =
    let ((x, y, z, w), s) =
      deposit_steps-Steps item stack_size ts no_rollback d 0 0 0 (pos 0) (refl, refl, refl, refl)
        (omega (arith, fits)) in
    (
      x ∙ ap pos (omega arith),
      y ∙ ap pos (omega arith),
      confirmed-planned ts d.replies,
      omega (arith, z),
      s,
    )
