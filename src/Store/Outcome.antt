-- ===== src/Store/Outcome.antt =====
-- The handler's calls and the end of an order: what one turn of the store's loop comes to.
use cj_store.Prelude.{
  ◌≡◌, refl, ◌⊎◌, inl, inr, Bool, true, false, Option, none, some, List, [], ◌∷◌, Result, ok, err,
  arith, Option-cases, Result-cases, if_split, if◌then◌else◌, ◌≤◌, ◌∙◌, sym,
}
use mathlib.Core.Path.{subst, subst₂}
use cj_store.Serde.{Serde}
use cj_store.Fsutil.{Siblings, Faults, IoError, other, write_atomic_err}
use cj_store.Queue.{
  QueuePersist, QueuedOrder, OrderQueue, QueueError, World, peek_front, peek_front-some,
  pop_committed_at_path,
}
use cj_store.Queue.Saves.{Saved, Kept}
use cj_store.TradeState.{TradeState, Transition, apply, is_terminal, order}
use cj_store.TradeState
use cj_store.TradeState.Mirror.{persist_to, persist_to_ok, clear_persisted_from, Mirrored}
use cj_store.TradeState.Phases.{Answers, apply-Answers, rank}
use cj_store.Store.Handover.{Takes, take_next-Takes}
use cj_store.Store.{
  Store, OrderFaults, take_next, take_from, take_mirrored, take_popped, advance_trade,
  advance_active, advance_from, handle, finish_order, finish_trade, clear_finished, cleared_with,
  process_next_order,
}

module _ {J K : Type 0} (sq : Serde J QueuePersist) (st : Serde K TradeState) where
  -- Whether a trade is one that began in `s`, of the same order and at least as far.
  abbrev Continues : Option TradeState → Option TradeState → Type 0
  Continues none none = Unit
  Continues (some t) (some u) = (order u ≡ order t) × (rank t ≤ rank u)
  Continues _ _ = ⊥

  Continues-refl : (t : Option TradeState) → Continues t t
  Continues-refl none = tt
  Continues-refl (some t) = (refl, omega arith)

  Continues-trans : (t u v : Option TradeState) → Continues t u → Continues u v → Continues t v
  Continues-trans none none none h k = tt
  Continues-trans (some t) (some u) (some v) h k = (k.0 ∙ h.0, omega arith)
  Continues-trans (some t) (some u) none h k = k
  Continues-trans (some t) none v h k = absurd h
  Continues-trans none (some u) v h k = absurd h
  Continues-trans none none (some v) h k = k

  advance_from-Continues :
      (f : Faults K) (t : Transition) (prev : TradeState) (s : Store J K) (n : TradeState.Next)
      → Answers t prev n
      → let s' = advance_from sq st f prev n s in
        Continues (some prev) s'.current_trade
        × (s'.order_queue ≡ s.order_queue)
        × (s'.queue_file ≡ s.queue_file)
        × (s'.processing_order ≡ s.processing_order)
  unfolding advance_from
  advance_from-Continues f t prev s (ok u) (_, o, r, _) = ((o, omega arith), refl, refl, refl)
  advance_from-Continues f t prev s (err e) _ = ((refl, omega arith), refl, refl, refl)

  -- What a handler leaves alone.
  abbrev Handles : Store J K → Store J K → Type 0
  Handles s s' =
      Continues s.current_trade s'.current_trade
      × (s'.order_queue ≡ s.order_queue)
      × (s'.queue_file ≡ s.queue_file)
      × (s'.processing_order ≡ s.processing_order)

  advance_active-Handles :
      (f : Faults K) (t : Transition) (o : Option TradeState) (s : Store J K)
      → s.current_trade ≡ o
      → Handles s (advance_active sq st f t o s)
  unfolding advance_active
  advance_active-Handles f t none s e = (Continues-refl s.current_trade, refl, refl, refl)
  advance_active-Handles f t (some prev) s e =
      let (c, q, d, p) = advance_from-Continues f t prev s (apply t prev) (apply-Answers t prev) in
      (
        subst (λ x. Continues x (advance_from sq st f prev (apply t prev) s).current_trade) (sym e)
            c,
        q,
        d,
        p,
      )

  handle-Handles :
      (calls : List (Faults K × Transition)) (s : Store J K) → Handles s (handle sq st calls s)
  unfolding handle advance_trade
  handle-Handles [] s = (Continues-refl s.current_trade, refl, refl, refl)
  handle-Handles ((f, t) ∷ calls) s =
      let s' : Store J K = advance_active sq st f t s.current_trade s in
      let (c, q, d, p) = advance_active-Handles f t s.current_trade s refl in
      let (c', q', d', p') = handle-Handles calls s' in
      (Continues-trans s.current_trade s'.current_trade _ c c', q' ∙ q, d' ∙ d, p' ∙ p)

  -- A trade at its end: committed or rolled back.
  abbrev pub IsOver : TradeState → Type 0
  IsOver (TradeState.committed _) = Unit {0}
  IsOver (TradeState.rolled_back _ _) = Unit {0}
  IsOver _ = ⊥

  terminal-IsOver : (t : TradeState) → is_terminal t ≡ true → IsOver t
  unfolding is_terminal
  terminal-IsOver (TradeState.committed _) e = tt
  terminal-IsOver (TradeState.rolled_back _ _) e = tt
  terminal-IsOver (TradeState.queued _) e = absurd (cc e)
  terminal-IsOver (TradeState.withdrawing _ _) e = absurd (cc e)
  terminal-IsOver (TradeState.trading _ _) e = absurd (cc e)
  terminal-IsOver (TradeState.depositing _ _ _) e = absurd (cc e)

  going_on : (t : TradeState) → is_terminal t ≡ false → IsOver t → ⊥
  unfolding is_terminal
  going_on (TradeState.committed _) e o = cc e
  going_on (TradeState.rolled_back _ _) e o = cc e
  going_on (TradeState.queued _) e o = o
  going_on (TradeState.withdrawing _ _) e o = o
  going_on (TradeState.trading _ _) e o = o
  going_on (TradeState.depositing _ _ _) e o = o

  -- The trade that is over leaves the store and the disk together, or stays on both if its file
  -- cannot be removed.
  abbrev pub Cleared : Bool → TradeState → Store J K → Store J K → Type 0
  Cleared removed t h s' =
      ((s'.current_trade ≡ none) × (s'.trade_file.live ≡ none))
      ⊎ ((removed ≡ false) × (s'.current_trade ≡ some t) × (s'.trade_file ≡ h.trade_file))

  -- The trade that is not over stays in the store, and is saved again or its file keeps its bytes.
  abbrev pub Stays : TradeState → Store J K → Store J K → Type 0
  Stays t h s' =
      (s'.current_trade ≡ some t) × (Mirrored st t s'.trade_file ⊎ Kept h.trade_file s'.trade_file)

  -- How an order ends, whose handler left the store `h`: with the order's own trade in `h`.
  abbrev pub Finished : Bool → QueuedOrder → Store J K → Store J K → Type 0
  Finished removed o h s' =
      (t : TradeState) × (h.current_trade ≡ some t)
      × (order t ≡ o)
      × (IsOver t × Cleared removed t h s' ⊎ ((IsOver t → ⊥) × Stays t h s'))

  persist_to_err :
      (f : Faults K) (t : TradeState) (d : Siblings K) {x : IoError}
      → (persist_to st f t d).1 ≡ err x
      → Kept d (persist_to st f t d).0
  unfolding persist_to
  persist_to_err f t d h = elim (Option-cases (st.to_string t)) [
    | inl e ↦ rw (e, persist_to) (inl refl)
    | inr (k, e) ↦
        rw (e, persist_to)
          (elim (write_atomic_err f k d (rw (e, persist_to) at h)) [
            | inl same ↦ inl same
            | inr (a, b, _) ↦ inr (a, b)
          ])
  ]

  persisted-Mirrored :
      (f : Faults K) (t : TradeState) (d : Siblings K)
      → Mirrored st t (persist_to st f t d).0 ⊎ Kept d (persist_to st f t d).0
  persisted-Mirrored f t d = elim (Result-cases (persist_to st f t d).1) [
    | inl (tt, e) ↦ inl (persist_to_ok st f t d e)
    | inr (x, e) ↦ inr (persist_to_err f t d e)
  ]

  -- The ways of a removal.
  abbrev Removes : Bool → Siblings K → Siblings K × Result (Unit {0}) IoError → Type 0
  Removes removed d (d', r) =
      ((r ≡ ok tt) × (d'.live ≡ none)) ⊎ ((removed ≡ false) × (r ≡ err other) × (d' ≡ d))

  clear_persisted_from-Removes :
      (removed : Bool) (d : Siblings K) → Removes removed d (clear_persisted_from st removed d)
  unfolding clear_persisted_from
  clear_persisted_from-Removes removed d = ground arith

  cleared_with-Cleared :
      (removed : Bool) (t : TradeState) (h : Store J K) (x : Siblings K × Result (Unit {0}) IoError)
      → h.current_trade ≡ some t
      → Removes removed h.trade_file x
      → Cleared removed t h (cleared_with sq st x h)
  unfolding cleared_with
  cleared_with-Cleared removed t h (d, ok _) e (inl (_, gone)) = inl (refl, gone)
  cleared_with-Cleared removed t h (d, ok _) e (inr (_, r, _)) = absurd (cc r)
  cleared_with-Cleared removed t h (d, err _) e (inl (r, _)) = absurd (cc r)
  cleared_with-Cleared removed t h (d, err _) e (inr (b, _, same)) = inr (b, e, same)

  finish_trade-Finished :
      (f : OrderFaults J K) (o : QueuedOrder) (c : Option TradeState) (h : Store J K)
      → h.current_trade ≡ c
      → Continues (some (TradeState.queued o)) c
      → Finished f.cleared o h (finish_trade sq st f c (record h { processing_order = false }))
  unfolding finish_trade clear_finished
  finish_trade-Finished f o none h e more = absurd more
  finish_trade-Finished f o (some t) h e more =
      let h₀ : Store J K = record h { processing_order = false } in
      (
        t,
        e,
        more.0 ∙ (unfold order in refl),
        if_split
            (λ (s' : Store J K).
              IsOver t × Cleared f.cleared t h s' ⊎ ((IsOver t → ⊥) × Stays t h s'))
            (is_terminal t)
            (λ over. inl (
              terminal-IsOver t over,
              cleared_with-Cleared f.cleared t h₀ (clear_persisted_from st f.cleared h.trade_file) e
                  (clear_persisted_from-Removes f.cleared h.trade_file),
            ))
            (λ on. inr (going_on t on, (e, persisted-Mirrored f.repersisted t h.trade_file))),
      )

  -- The trade file of an order that was not taken: it keeps its bytes; or it held the copy of the
  -- first order in their place, and holds it still or is gone.
  abbrev pub FileLeft : Store J K → Siblings K → Type 0
  FileLeft s d =
      Kept s.trade_file d
      ⊎ ((o : QueuedOrder) × (rest : List QueuedOrder) × (s.order_queue.orders ≡ o ∷ rest)
          × ((d.live ≡ none) ⊎ Mirrored st (TradeState.queued o) d))

  -- What one turn leaves when it takes no order.
  abbrev pub Waits : Store J K → Store J K → Type 0
  Waits s s' =
      (s'.order_queue ≡ s.order_queue)
      × (s'.current_trade ≡ s.current_trade)
      × (s'.processing_order ≡ s.processing_order)
      × Kept s.queue_file s'.queue_file
      × FileLeft s s'.trade_file

  abbrev LeftUntaken : Store J K → Store J K × Bool → Type 0
  LeftUntaken s (s', true) = Unit {0}
  LeftUntaken s (s', false) = FileLeft s s'.trade_file

  take_popped-LeftUntaken :
      (f : OrderFaults J K) (o : QueuedOrder) (rest : List QueuedOrder) (s : Store J K)
      (d : Siblings K) (x : World J × Result QueuedOrder QueueError)
      → s.order_queue.orders ≡ o ∷ rest
      → Mirrored st (TradeState.queued o) d
      → LeftUntaken s (take_popped sq st f o (record s { trade_file = d }) x)
  unfolding take_popped
  take_popped-LeftUntaken f o rest s d (w, ok _) e m = tt
  take_popped-LeftUntaken f o rest s d (w, err _) e m = inr (
    o,
    rest,
    e,
    elim (clear_persisted_from-Removes f.cleared_orphan d) [
      | inl (_, gone) ↦ inl gone
      | inr (_, _, same) ↦ inr (subst (Mirrored st (TradeState.queued o)) (sym same) m)
    ],
  )

  take_mirrored-LeftUntaken :
      (f : OrderFaults J K) (o : QueuedOrder) (rest : List QueuedOrder) (s : Store J K)
      (x : Siblings K × Result (Unit {0}) IoError)
      → s.order_queue.orders ≡ o ∷ rest
      → (x.1 ≡ ok tt → Mirrored st (TradeState.queued o) x.0)
      → ((y : IoError) → x.1 ≡ err y → Kept s.trade_file x.0)
      → LeftUntaken s (take_mirrored sq st f o s x)
  unfolding take_mirrored
  take_mirrored-LeftUntaken f o rest s (d, ok _) e m k =
      take_popped-LeftUntaken f o rest s d
        (pop_committed_at_path sq f.popped o.id (s.order_queue, s.queue_file)) e (m refl)
  take_mirrored-LeftUntaken f o rest s (d, err y) e m k = inl (k y refl)

  take_next-LeftUntaken :
      (f : OrderFaults J K) (s : Store J K) → LeftUntaken s (take_next sq st f s)
  unfolding take_next
  take_next-LeftUntaken f s = go (peek_front s.order_queue) refl
    where
      go :
          (p : Option QueuedOrder)
          → peek_front s.order_queue ≡ p
          → LeftUntaken s (take_from sq st f s p)
      go none e = unfold take_from in inl (inl refl)
      go (some o) e =
          unfold take_from in
          let (rest, split) = peek_front-some s.order_queue o e in
          let d = s.trade_file in
          take_mirrored-LeftUntaken f o rest s (persist_to st f.mirrored (TradeState.queued o) d)
            split (persist_to_ok st f.mirrored (TradeState.queued o) d)
            (λ y. persist_to_err f.mirrored (TradeState.queued o) d)

  -- What one turn of the loop comes to, with the calls that a handler makes.
  abbrev pub Processes :
      OrderFaults J K → List (Faults K × Transition) → Store J K → Store J K → Type 0
  Processes f calls s s' =
      Waits s s'
      ⊎ ((o : QueuedOrder) × (s.order_queue.orders ≡ o ∷ s'.order_queue.orders)
          × (s'.processing_order ≡ false)
          × Saved sq s'.order_queue s'.queue_file
          × Finished f.cleared o (handle sq st calls (take_next sq st f s).0) s')

  -- What the end of an order leaves alone.
  abbrev Rests : Store J K → Store J K → Type 0
  Rests s s' =
      (s'.order_queue ≡ s.order_queue)
      × (s'.queue_file ≡ s.queue_file)
      × (s'.processing_order ≡ s.processing_order)

  cleared_with-Rests :
      (x : Siblings K × Result (Unit {0}) IoError) (s : Store J K)
      → Rests s (cleared_with sq st x s)
  unfolding cleared_with
  cleared_with-Rests (d, ok _) s = (refl, refl, refl)
  cleared_with-Rests (d, err _) s = (refl, refl, refl)

  finish_trade-Rests :
      (f : OrderFaults J K) (c : Option TradeState) (s : Store J K)
      → Rests s (finish_trade sq st f c s)
  unfolding finish_trade clear_finished
  finish_trade-Rests f none s =
      cleared_with-Rests (clear_persisted_from st f.cleared s.trade_file) s
  finish_trade-Rests f (some t) s =
      if_split (Rests s) (is_terminal t)
        (λ _. cleared_with-Rests (clear_persisted_from st f.cleared s.trade_file) s)
        (λ _. (refl, refl, refl))

  process_taken :
      (f : OrderFaults J K) (calls : List (Faults K × Transition)) (s : Store J K)
      (x : Store J K × Bool)
      → take_next sq st f s ≡ x
      → Takes sq st s x
      → LeftUntaken s x
      → let (s', taken) = x in
        Processes f calls s (if taken then finish_order sq st f (handle sq st calls s') else s')
  unfolding finish_order
  process_taken f calls s (s', false) at_x (q, c, p, k) left = inl (q, c, p, k, left)
  process_taken f calls s (s', true) at_x (o, split, c, _, saved, _) _ =
      let h : Store J K = handle sq st calls s' in
      let (more, q, d, _) = handle-Handles calls s' in
      let h₀ : Store J K = record h { processing_order = false } in
      let (q', d', p') = finish_trade-Rests f h.current_trade h₀ in
      let on = subst (λ x. Continues x h.current_trade) c more in
      let last : Store J K = finish_trade sq st f h.current_trade h₀ in
      inr (
        o,
        subst (λ (w : OrderQueue). s.order_queue.orders ≡ o ∷ w.orders) (sym (q' ∙ q)) split,
        p',
        subst₂ (Saved sq) (sym (q' ∙ q)) (sym (d' ∙ d)) saved,
        subst (λ (y : Store J K × Bool). Finished f.cleared o (handle sq st calls y.0) last)
            (sym at_x) (finish_trade-Finished f o h.current_trade h refl on),
      )

  -- One turn of the loop, with any calls of the handler and any failures, takes no order or the first
  -- one. If it takes none, the queue and the trade in memory are as they were, no byte of the queue
  -- file is lost, and the trade file keeps its bytes, but for the copy of the first order that may
  -- have taken their place and may be removed again. If it takes one, exactly the first order leaves
  -- the queue, in memory and on disk, and the store is free for the next one; the handler leaves a
  -- trade of that order, and if it is committed or rolled back then it is cleared from the store and
  -- the disk, or stays on both as its file cannot be removed; any other trade stays in the store, and
  -- its file holds its text or keeps its bytes.
  pub process_next_order-Processes :
      (f : OrderFaults J K) (calls : List (Faults K × Transition)) (s : Store J K)
      → Processes f calls s (process_next_order sq st f calls s)
  unfolding process_next_order
  process_next_order-Processes f calls s =
      process_taken f calls s (take_next sq st f s) refl (take_next-Takes sq st f s)
        (take_next-LeftUntaken f s)
