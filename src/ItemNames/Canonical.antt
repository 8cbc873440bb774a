-- ===== src/ItemNames/Canonical.antt =====
-- What `ItemId::new` accepts is in normal form, and a normal form is its own.
use Prim.Native.Char.{Char, code, len_utf8, len_utf8_def, width}
use Prim.Native.Nat.{compare}
use Prim.Native.String.len
use Prim.Native.String.{[], ◌∷◌, len, char_at}
use cj_store.Prelude.{
  ℕ, zero, suc, ◌+◌, ◌-◌, ◌<◌, ◌≡◌, ◌↔◌, ◌⊎◌, refl, ap, ap₂, sym, ◌∙◌, inl, inr, Bool, true, false,
  not, ◌&&◌, none, String, Result, ok, ltb, leb, ◌==◌, Bool-cases, arith, ==_iff,
}
use mathlib.Core.Path.{subst}
use cj_store.Types.{ItemId}
use cj_store.ItemNames.{
  ItemIdError, is_allowed, is_lower_allowed, is_ascii_uppercase, all, strip_prefix, lowercase_char,
  to_ascii_lowercase, is_blank, is_some, or_else, is_canonical, normalized_id, new,
}

and_left : (a b : Bool) → (a && b) ≡ true → a ≡ true
and_left a b h = ground (arith, h)

and_right : (a b : Bool) → (a && b) ≡ true → b ≡ true
and_right a b h = ground (arith, h)

-- A test that holds of every number below a bound.
abbrev all_below : ℕ → (ℕ → Bool) → Bool
all_below zero p = true
all_below (suc n) p = all_below n p && p n

all_below-at : (n i : ℕ) (p : ℕ → Bool) → all_below n p ≡ true → i < n → p i ≡ true
all_below-at zero i p h lt = absurd (omega arith)
all_below-at (suc n) i p h lt = elim (below-or-last) [
  | inl below ↦ all_below-at n i p (and_left _ _ h) below
  | inr last ↦ rw last (and_right _ _ h)
]
  where
    below-or-last : (i < n) ⊎ (i ≡ n)
    below-or-last = ground (arith, lt)

letter : ℕ → Char
letter i = char_at "abcdefghijklmnopqrstuvwxyz" i

letters : (i : ℕ) → i < 26 → (is_lower_allowed (letter i) && (len_utf8 (letter i) == 1)) ≡ true
unfolding letter
letters i lt =
    all_below-at 26 i (λ k. is_lower_allowed (letter k) && (len_utf8 (letter k) == 1)) refl lt

upper_index : (c : Char) → is_ascii_uppercase c ≡ true → code c - 65 < 26
upper_index c up = ground (arith, up)

lowercase_char-lower : (c : Char) → is_allowed c ≡ true → is_lower_allowed (lowercase_char c) ≡ true
unfolding letter
lowercase_char-lower c h = elim (Bool-cases (is_ascii_uppercase c)) [
  | inl up ↦ rw up (and_left _ _ (letters (code c - 65) (upper_index c up)))
  | inr other ↦ rw other (as_lower c other h)
]
  where
    as_lower :
        (c : Char) → is_ascii_uppercase c ≡ false → is_allowed c ≡ true → is_lower_allowed c ≡ true
    as_lower c other h = ground (arith, other, h)

len_utf8_ascii : (c : Char) → is_ascii_uppercase c ≡ true → len_utf8 c ≡ 1
len_utf8_ascii c up = (λ i. len_utf8_def c i) ∙ narrow c up
  where
    narrow :
        (c : Char)
        → is_ascii_uppercase c ≡ true
        → width (compare (code c) 128) (compare (code c) 2048) (compare (code c) 65536) ≡ 1
    narrow c up = ground (arith, up)

lowercase_char-len : (c : Char) → len_utf8 (lowercase_char c) ≡ len_utf8 c
unfolding letter
lowercase_char-len c = elim (Bool-cases (is_ascii_uppercase c)) [
  | inl up ↦ rw up (
      (==_iff _ _).0 (and_right _ _ (letters (code c - 65) (upper_index c up)))
      ∙ sym (len_utf8_ascii c up))
  | inr other ↦ rw other refl
]

lowercase_char-same : (c : Char) → is_lower_allowed c ≡ true → lowercase_char c ≡ c
lowercase_char-same c h = rw (not_upper c h) refl
  where
    not_upper : (c : Char) → is_lower_allowed c ≡ true → is_ascii_uppercase c ≡ false
    not_upper c h = ground (arith, h)

lower-allowed : (c : Char) → is_lower_allowed c ≡ true → is_allowed c ≡ true
lower-allowed c h = ground (arith, h)

both : (a b : Bool) → a ≡ true → b ≡ true → (a && b) ≡ true
both a b h k = ground (arith, h, k)

all-lower :
    (s : String) → all is_allowed s ≡ true → all is_lower_allowed (to_ascii_lowercase s) ≡ true
unfolding all to_ascii_lowercase
all-lower [] h = refl
all-lower (c ∷ s) h =
    both _ _ (lowercase_char-lower c (and_left _ _ h)) (all-lower s (and_right _ _ h))

all-allowed : (s : String) → all is_lower_allowed s ≡ true → all is_allowed s ≡ true
unfolding all
all-allowed [] h = refl
all-allowed (c ∷ s) h =
    both _ _ (lower-allowed c (and_left _ _ h)) (all-allowed s (and_right _ _ h))

len-cons : (c : Char) (s : String) → len (c ∷ s) ≡ len_utf8 c + len s
len-cons c s = λ i. len.cons c s i

lowercase-len : (s : String) → len (to_ascii_lowercase s) ≡ len s
unfolding to_ascii_lowercase
lowercase-len [] = refl
lowercase-len (c ∷ s) = omega (
  arith,
  lowercase_char-len c,
  lowercase-len s,
  len-cons c s,
  len-cons (lowercase_char c) (to_ascii_lowercase s),
)

lowercase-blank : (s : String) → is_blank (to_ascii_lowercase s) ≡ is_blank s
unfolding to_ascii_lowercase
lowercase-blank [] = refl
lowercase-blank (c ∷ s) = refl

lowercase-same : (s : String) → all is_lower_allowed s ≡ true → to_ascii_lowercase s ≡ s
unfolding all to_ascii_lowercase
lowercase-same [] h = refl
lowercase-same (c ∷ s) h =
    ap₂ ◌∷◌ (lowercase_char-same c (and_left _ _ h)) (lowercase-same s (and_right _ _ h))

is_allowed-code : (c d : Char) → code c ≡ code d → is_allowed d ≡ true → is_allowed c ≡ true
is_allowed-code c d e h = rw e h

-- A prefix with a character that is not allowed is no prefix of a text of allowed ones.
strip_prefix-none :
    (ps s : String) → all is_allowed ps ≡ false → all is_allowed s ≡ true → strip_prefix ps s ≡ none
unfolding all strip_prefix
strip_prefix-none [] s bad h = cc
strip_prefix-none (p ∷ ps) [] bad h = refl
strip_prefix-none (p ∷ ps) (c ∷ s) bad h = elim (Bool-cases (code p == code c)) [
  | inl same ↦
      let allowed = is_allowed-code p c ((==_iff _ _).0 same) (and_left _ _ h) in
      rw (same, strip_prefix) (strip_prefix-none ps s (later allowed bad) (and_right _ _ h))
  | inr other ↦ rw (other, strip_prefix) refl
]
  where
    later : {a b : Bool} → a ≡ true → (a && b) ≡ false → b ≡ false
    later h k = ground (arith, h, k)

no_prefix : (s : String) → all is_allowed s ≡ true → strip_prefix "minecraft:" s ≡ none
unfolding all
no_prefix s h = strip_prefix-none "minecraft:" s refl h

four_tests :
    (a b c d : Bool)
    → ((not a && b && not c && d) ≡ true) ↔ ((a ≡ false) × (b ≡ true) × (c ≡ false) × (d ≡ true))
four_tests a b c d = ground arith

canonical-tests :
    (s : String)
    → (is_canonical s ≡ true) ↔ (
        (is_blank s ≡ false)
        × (leb (len s) 64 ≡ true)
        × (is_some (strip_prefix "minecraft:" s) ≡ false)
        × (all is_lower_allowed s ≡ true))
unfolding is_canonical
canonical-tests s = four_tests _ _ _ _

canonical_new : (t : String) → is_canonical t ≡ true → new t ≡ ok t
unfolding new
canonical_new t h =
    let (filled, short, bare, lower) = (canonical-tests t).0 h in
    let allowed = all-allowed t lower in
    rw (no_prefix t allowed, filled, fits (len t) short, allowed) (ap ok (lowercase-same t lower))
  where
    fits : (n : ℕ) → leb n 64 ≡ true → ltb 64 n ≡ false
    fits n h = ground (arith, h)

same_answer : (a b : String) → ◌≡◌ {A = Result ItemId ItemIdError} (ok a) (ok b) → a ≡ b
same_answer a b h = cc h

normalized_id-canonical : (s t : String) → normalized_id s ≡ ok t → is_canonical t ≡ true
normalized_id-canonical s t e = elim (Bool-cases (is_blank s)) [
  | inl blank ↦ absurd (cc (rw blank at e))
  | inr filled ↦ elim (Bool-cases (ltb 64 (len s))) [
    | inl long ↦ absurd (cc (rw (filled, long) at e))
    | inr short ↦ elim (Bool-cases (all is_allowed s)) [
      | inr other ↦ absurd (cc (rw (filled, short, other) at e))
      | inl allowed ↦
          let lower = all-lower s allowed in
          subst (λ u. is_canonical u ≡ true) (same_answer _ _ (rw (filled, short, allowed) at e))
            ((canonical-tests (to_ascii_lowercase s)).1 (
              lowercase-blank s ∙ filled,
              rw (lowercase-len s) (fits (len s) short),
              ap is_some (no_prefix (to_ascii_lowercase s) (all-allowed _ lower)),
              lower,
            ))
    ]
  ]
]
  where
    fits : (n : ℕ) → ltb 64 n ≡ false → leb n 64 ≡ true
    fits n h = ground (arith, h)

-- What `ItemId::new` accepts of any text is canonical: not empty, at most 64 bytes, of lower-case
-- letters, digits and underscores, and without the prefix. And `ItemId::new` gives back each
-- canonical text as it is, so that a second normalisation changes nothing.
pub new-canonical : (raw t : String) → new raw ≡ ok t → (is_canonical t ≡ true) × (new t ≡ ok t)
unfolding new
new-canonical raw t e =
    let c = normalized_id-canonical (or_else (strip_prefix "minecraft:" raw) raw) t e in
    (c, canonical_new t c)
