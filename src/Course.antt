-- ===== src/Course.antt =====
-- The courses of orders in src/store/orders.rs: which transitions of its trade an order's handler
-- calls, and how it ends.
use mathlib.Core.Path.{subst}
use mathlib.Core.List.{append-nil, append_assoc}
use cj_store.Prelude.{
  ◌≡◌, ◌⊎◌, refl, ap, sym, ◌∙◌, inl, inr, not, ◌||◌, Option, none, some, List, [], ◌∷◌, ◌++◌,
  String, Result, ok, err, if_split, str_eq,
}
use cj_store.Float.{Float}
use cj_store.Messages.{F64}
use cj_store.Queue.{QueuedOrder}
use cj_store.TradeState.{
  TradeState, rolled_back, committed, CompletedTrade, Transition, rolls_back, apply, phase,
}
use cj_store.TradeState.Steps.{Runs, stop, next}
use cj_store.Ledger.{User, Pair, Map, lookup}
use cj_store.Ledger.Users.{is_valid_uuid_shape}
use cj_store.Shop.{
  Shop, OrderError, WhisperError, advance, answer_of, send_message_to_player, enrolled,
  ensure_user_exists, Answer,
}

abbrev pub IsErr : Result (Unit {0}) OrderError → Type 0
IsErr r = (e : OrderError) × (r ≡ err e)

-- What an order that is not committed may do to the pairs, by the last state of its trade.
abbrev pub Keep : Type 1
Keep = TradeState → Map (Pair F64) → Map (Pair F64) → Type 0

-- How an order ends: with a committed trade; or with the pairs kept and the trade rolled back, or
-- never begun, or an error for the caller.
abbrev pub Fate : Keep → TradeState → Shop → Answer → Type 0
Fate K v sh (sh', r) =
    (phase v ≡ "committed")
    ⊎ (K v sh.pairs sh'.pairs × ((phase v ≡ "rolled_back") ⊎ ((phase v ≡ "queued") ⊎ IsErr r)))

-- The transitions called from the state `s` on are accepted one after another.
pub record CourseFrom (K : Keep) (s : TradeState) (sh : Shop) (a : Answer) : Type 0 where
  pub calls : List Transition
  pub last : TradeState
  pub called : a.0.advanced ≡ sh.advanced ++ calls
  pub runs : Runs s calls last
  pub fate : Fate K last sh a

abbrev pub Same : Shop → Shop → Type 0
Same sh sh' = (sh'.advanced ≡ sh.advanced) × (sh'.pairs ≡ sh.pairs)

pub whisper-Same : (sh : Shop) → Same sh (send_message_to_player sh).0
unfolding send_message_to_player
whisper-Same sh = go sh.whispers
  where
    go : (ws : List (Result (Unit {0}) WhisperError)) → Same sh (answer_of sh ws).0
    go [] = (refl, refl)
    go (ok _ ∷ ws) = (refl, refl)
    go (err e ∷ ws) = (refl, refl)

-- Nothing of the ledger has changed, nor what is still to be answered by the trade.
abbrev pub SameBooks : Shop → Shop → Type 0
SameBooks sh sh' =
    (sh'.advanced ≡ sh.advanced)
    × (sh'.users ≡ sh.users)
    × (sh'.pairs ≡ sh.pairs)
    × (sh'.trades ≡ sh.trades)
    × (sh'.trade_answer ≡ sh.trade_answer)
    × (sh'.desk ≡ sh.desk)

pub SameBooks-trans : (a b c : Shop) → SameBooks a b → SameBooks b c → SameBooks a c
SameBooks-trans a b c (x, u, p, t, y, d) (x', u', p', t', y', d') =
    (x' ∙ x, u' ∙ u, p' ∙ p, t' ∙ t, y' ∙ y, d' ∙ d)

pub whisper-SameBooks : (sh : Shop) → SameBooks sh (send_message_to_player sh).0
unfolding send_message_to_player
whisper-SameBooks sh = go sh.whispers
  where
    go : (ws : List (Result (Unit {0}) WhisperError)) → SameBooks sh (answer_of sh ws).0
    go [] = (refl, refl, refl, refl, refl, refl)
    go (ok _ ∷ ws) = (refl, refl, refl, refl, refl, refl)
    go (err e ∷ ws) = (refl, refl, refl, refl, refl, refl)

pub two_calls :
    (xs : List Transition) (t u : Transition) → (xs ++ t ∷ []) ++ u ∷ [] ≡ xs ++ t ∷ u ∷ []
two_calls xs t u = append_assoc xs (t ∷ []) (u ∷ [])

pub three_calls :
    (xs : List Transition) (t u v : Transition)
    → ((xs ++ t ∷ []) ++ u ∷ []) ++ v ∷ [] ≡ xs ++ t ∷ u ∷ v ∷ []
three_calls xs t u v =
    ap (λ ys. ys ++ v ∷ []) (two_calls xs t u) ∙ append_assoc xs (t ∷ u ∷ []) (v ∷ [])

module _ (K : Keep) where
  -- The pairs were the same before.
  earlier_pairs :
      (v : TradeState) (sh sh' : Shop) (a : Answer)
      → sh'.pairs ≡ sh.pairs
      → Fate K v sh' a
      → Fate K v sh a
  earlier_pairs v sh sh' a pairs (inl c) = inl c
  earlier_pairs v sh sh' a pairs (inr (p, how)) =
      inr (subst (λ (ps : Map (Pair F64)). K v ps a.0.pairs) pairs p, how)

  -- A call of a transition that is accepted, and changes of other things.
  pub then_course :
      (t : Transition) (s u : TradeState) (sh sh' : Shop) (a : Answer)
      → apply t s ≡ ok u
      → Same sh sh'
      → CourseFrom K u (advance t sh') a
      → CourseFrom K s sh a
  then_course t s u sh sh' a e same c = record {
    calls = t ∷ c.calls;
    last = c.last;
    called =
        c.called
        ∙ ap (λ xs. (xs ++ t ∷ []) ++ c.calls) same.0
        ∙ append_assoc sh.advanced (t ∷ []) c.calls;
    runs = next e c.runs;
    fate = earlier_pairs c.last sh (advance t sh') a same.1 c.fate;
  }

  pub unchanged_course :
      (s : TradeState) (sh sh' : Shop) (a : Answer)
      → Same sh sh'
      → CourseFrom K s sh' a
      → CourseFrom K s sh a
  unchanged_course s sh sh' a same c = record {
    calls = c.calls;
    last = c.last;
    called = c.called ∙ ap (λ xs. xs ++ c.calls) same.0;
    runs = c.runs;
    fate = earlier_pairs c.last sh sh' a same.1 c.fate;
  }

  -- The last step: nothing more is called.
  pub ends :
      (s : TradeState) (sh : Shop) (a : Answer)
      → a.0.advanced ≡ sh.advanced
      → K s sh.pairs a.0.pairs
      → (phase s ≡ "rolled_back") ⊎ ((phase s ≡ "queued") ⊎ IsErr a.1)
      → CourseFrom K s sh a
  ends s sh a same kept how = record {
    calls = [];
    last = s;
    called = same ∙ sym (append-nil sh.advanced);
    runs = stop;
    fate = inr (kept, how);
  }

  pub stays :
      (s : TradeState) (sh : Shop) (a : Answer)
      → K s sh.pairs sh.pairs
      → Same sh a.0
      → (phase s ≡ "rolled_back") ⊎ ((phase s ≡ "queued") ⊎ IsErr a.1)
      → CourseFrom K s sh a
  stays s sh a kept same how =
      ends s sh a same.0 (subst (λ (ps : Map (Pair F64)). K s sh.pairs ps) (sym same.1) kept) how

  pub rolled_course :
      (o : QueuedOrder) (s : TradeState) (reason : String) (sh sh' : Shop)
      → K (rolled_back o reason) sh'.pairs sh'.pairs
      → apply (rolls_back reason) s ≡ ok (rolled_back o reason)
      → Same sh sh'
      → CourseFrom K s sh (send_message_to_player (advance (rolls_back reason) sh'))
  unfolding phase
  rolled_course o s reason sh sh' kept e same =
      let sh2 : Shop = advance (rolls_back reason) sh' in
      then_course (rolls_back reason) s (rolled_back o reason) sh sh' (send_message_to_player sh2) e
        same
        (stays (rolled_back o reason) sh2 (send_message_to_player sh2) kept (whisper-Same sh2)
          (inl refl))

  pub committed_course :
      (t : Transition) (s : TradeState) (c : CompletedTrade) (sh sh' : Shop)
      → apply t s ≡ ok (committed c)
      → sh'.advanced ≡ sh.advanced ++ t ∷ []
      → CourseFrom K s sh (send_message_to_player sh')
  unfolding phase
  committed_course t s c sh sh' e adv = record {
    calls = t ∷ [];
    last = committed c;
    called = (whisper-Same sh').0 ∙ adv;
    runs = next e stop;
    fate = inl refl;
  }

-- What a course keeps, seen more loosely.
pub looser_course :
    (K L : Keep) (s : TradeState) (sh : Shop) (a : Answer)
    → ((v : TradeState) (after : Map (Pair F64)) → K v sh.pairs after → L v sh.pairs after)
    → CourseFrom K s sh a
    → CourseFrom L s sh a
looser_course K L s sh a loose c = record {
  calls = c.calls;
  last = c.last;
  called = c.called;
  runs = c.runs;
  fate = go c.fate;
}
  where
    go : Fate K c.last sh a → Fate L c.last sh a
    go (inl done) = inl done
    go (inr (kept, how)) = inr (loose c.last a.0.pairs kept, how)

pub ensure_user_exists-Same :
    ⦃f : Float F64⦄ (player_name user_uuid : String) (sh : Shop)
    → Same sh (ensure_user_exists player_name user_uuid sh)
unfolding ensure_user_exists
ensure_user_exists-Same player_name user_uuid sh =
    if_split (Same sh) (not (is_valid_uuid_shape user_uuid))
      {y = enrolled player_name user_uuid sh (lookup user_uuid sh.users)} (λ _. (refl, refl))
      (λ _. go (lookup user_uuid sh.users))
  where
    go : (x : Option (User F64)) → Same sh (enrolled player_name user_uuid sh x)
    go none = (refl, refl)
    go (some u) =
        if_split (Same sh) (str_eq u.username player_name || is_valid_uuid_shape player_name)
          (λ _. (refl, refl)) (λ _. (refl, refl))

pub ensure_user_exists-keeps-fee :
    ⦃f : Float F64⦄ (player_name user_uuid : String) (sh : Shop)
    → (ensure_user_exists player_name user_uuid sh).fee ≡ sh.fee
unfolding ensure_user_exists
ensure_user_exists-keeps-fee player_name user_uuid sh =
    if_split (λ (sh' : Shop). sh'.fee ≡ sh.fee) (not (is_valid_uuid_shape user_uuid))
      {y = enrolled player_name user_uuid sh (lookup user_uuid sh.users)} (λ _. refl)
      (λ _. go (lookup user_uuid sh.users))
  where
    go : (x : Option (User F64)) → (enrolled player_name user_uuid sh x).fee ≡ sh.fee
    go none = refl
    go (some u) =
        if_split (λ (sh' : Shop). sh'.fee ≡ sh.fee)
          (str_eq u.username player_name || is_valid_uuid_shape player_name) (λ _. refl) (λ _. refl)

pub ensure_user_exists-keeps-trade_answer :
    ⦃f : Float F64⦄ (player_name user_uuid : String) (sh : Shop)
    → (ensure_user_exists player_name user_uuid sh).trade_answer ≡ sh.trade_answer
unfolding ensure_user_exists
ensure_user_exists-keeps-trade_answer player_name user_uuid sh =
    if_split (λ (sh' : Shop). sh'.trade_answer ≡ sh.trade_answer)
      (not (is_valid_uuid_shape user_uuid))
      {y = enrolled player_name user_uuid sh (lookup user_uuid sh.users)} (λ _. refl)
      (λ _. go (lookup user_uuid sh.users))
  where
    go :
        (x : Option (User F64))
        → (enrolled player_name user_uuid sh x).trade_answer ≡ sh.trade_answer
    go none = refl
    go (some u) =
        if_split (λ (sh' : Shop). sh'.trade_answer ≡ sh.trade_answer)
          (str_eq u.username player_name || is_valid_uuid_shape player_name) (λ _. refl) (λ _. refl)
