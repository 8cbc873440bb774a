-- ===== src/Chat/Routing/Words.antt =====
-- What becomes of the words of a whisper on its way.
use Prim.Native.Char.{Char, code}
use Prim.Native.String.{[], ◌∷◌, len}
use cj_store.Prelude.{
  ℕ, ◌≡◌, refl, ap, ◌∙◌, sym, Bool, true, false, List, String, ltb, ◌==◌, Bool-cases, ◌⊎◌, inl, inr,
}
use cj_store.ItemNames.{is_between, all}
use cj_store.Commands.{is_whitespace, push_word, cut, split_whitespace}
use cj_store.Chat.Routing.{
  WhisperRoute, store, is_control, white, control, kept, char_kind, squeeze, without_last_space,
  normalize, is_sigil, strip_sigil, is_prefix, route_words, route_core, route_normalized,
  route_whisper,
}

-- The whisper, without control characters that are no whitespace.
unfoldable pub without_controls : String → String
without_controls [] = []
without_controls (c ∷ s) =
    let rest = without_controls s in
    elim (char_kind c) [ white ↦ c ∷ rest | control ↦ rest | kept ↦ c ∷ rest ]

abbrev SqueezesTo : String → String → Type 0
SqueezesTo s t =
    (split_whitespace (squeeze false s) ≡ split_whitespace t) × (cut (squeeze true s) ≡ cut t)

cut-white :
    (c : Char) (s : String) → is_whitespace c ≡ true → cut (c ∷ s) ≡ ([], split_whitespace s)
unfolding split_whitespace cut
cut-white c s e = rw e refl

cut-black :
    (c : Char) (s : String) → is_whitespace c ≡ false → cut (c ∷ s) ≡ (c ∷ (cut s).0, (cut s).1)
unfolding cut
cut-black c s e = rw e refl

char_kind-cases :
    (c : Char)
    → (is_whitespace c ≡ true) × (char_kind c ≡ white)
      ⊎ (is_whitespace c ≡ false) × ((char_kind c ≡ control) ⊎ (char_kind c ≡ kept))
unfolding char_kind
char_kind-cases c = elim (Bool-cases (is_whitespace c)) [
  | inl e ↦ inl (e, rw e refl)
  | inr e ↦ elim (Bool-cases (is_control c)) [
    | inl k ↦ inr (e, inl (rw (e, k) refl))
    | inr k ↦ inr (e, inr (rw (e, k) refl))
  ]
]

-- The words of a text are those of the cut at its first space.
split-cut : (s t : String) → cut s ≡ cut t → split_whitespace s ≡ split_whitespace t
unfolding split_whitespace
split-cut s t e = ap (λ (x : String × List String). push_word x.0 x.1) e

split-white :
    (c : Char) (s : String) → is_whitespace c ≡ true → split_whitespace (c ∷ s) ≡ split_whitespace s
unfolding split_whitespace
split-white c s e = ap (λ (x : String × List String). push_word x.0 x.1) (cut-white c s e)

cut-same_white :
    (c d : Char) (s t : String)
    → is_whitespace c ≡ true
    → is_whitespace d ≡ true
    → split_whitespace s ≡ split_whitespace t
    → cut (c ∷ s) ≡ cut (d ∷ t)
cut-same_white c d s t e k same =
    cut-white c s e ∙ ap (λ (ws : List String). ([], ws)) same ∙ sym (cut-white d t k)

cut-same_black :
    (c : Char) (s t : String) → is_whitespace c ≡ false → cut s ≡ cut t → cut (c ∷ s) ≡ cut (c ∷ t)
cut-same_black c s t e same =
    cut-black c s e ∙ ap (λ (x : String × List String). (c ∷ x.0, x.1)) same ∙ sym (cut-black c t e)

space_white : is_whitespace " " ≡ true
unfolding is_whitespace
space_white = refl

no_words : cut [] ≡ ([], split_whitespace [])
unfolding cut split_whitespace
no_words = refl

space-IsWhite : (c : Char) → (code c == 32) ≡ true → is_whitespace c ≡ true
unfolding is_whitespace
space-IsWhite c e = elim (Bool-cases (is_between c 9 13)) [
  | inl k ↦ rw k refl
  | inr k ↦ rw (k, e) refl
]

squeeze-SqueezesTo : (s : String) → SqueezesTo s (without_controls s)
unfolding squeeze without_controls
squeeze-SqueezesTo [] = (refl, refl)
squeeze-SqueezesTo (c ∷ s) =
    let (closed, roomy) = squeeze-SqueezesTo s in
    let rest = without_controls s in
    elim (char_kind-cases c) [
      | inl (e, k) ↦
          rw (squeeze, without_controls, k)
            (
              closed ∙ sym (split-white c rest e),
              cut-same_white " " c (squeeze false s) rest space_white e closed,
            )
      | inr (e, inl k) ↦ rw (squeeze, without_controls, k) (closed, roomy)
      | inr (e, inr k) ↦
          rw (squeeze, without_controls, k)
            (let same = cut-same_black c (squeeze true s) rest e roomy in
              (split-cut (c ∷ squeeze true s) (c ∷ rest) same, same))
    ]

cut-without_last_space : (s : String) → cut (without_last_space s) ≡ cut s
unfolding without_last_space
cut-without_last_space [] = refl
cut-without_last_space (c ∷ []) = elim (Bool-cases (code c == 32)) [
  | inl e ↦ rw e (no_words ∙ sym (cut-white c [] (space-IsWhite c e)))
  | inr e ↦ rw e refl
]
cut-without_last_space (c ∷ d ∷ s) = elim (Bool-cases (is_whitespace c)) [
  | inl e ↦
      cut-same_white c c (without_last_space (d ∷ s)) (d ∷ s) e e
        (split-cut (without_last_space (d ∷ s)) (d ∷ s) (cut-without_last_space (d ∷ s)))
  | inr e ↦ cut-same_black c (without_last_space (d ∷ s)) (d ∷ s) e (cut-without_last_space (d ∷ s))
]

split-normalize :
    (s : String) → split_whitespace (normalize s) ≡ split_whitespace (without_controls s)
unfolding normalize
split-normalize s =
    split-cut (without_last_space (squeeze false s)) (squeeze false s)
      (cut-without_last_space (squeeze false s))
    ∙ (squeeze-SqueezesTo s).0

-- No space stands at the start.
abbrev IsTrimmed : String → Type 0
IsTrimmed [] = Unit {0}
IsTrimmed (c ∷ _) = is_whitespace c ≡ false

squeeze-IsTrimmed : (s : String) → IsTrimmed (squeeze false s)
unfolding squeeze
squeeze-IsTrimmed [] = tt
squeeze-IsTrimmed (c ∷ s) = elim (char_kind-cases c) [
  | inl (e, k) ↦ rw (squeeze, k) (squeeze-IsTrimmed s)
  | inr (e, inl k) ↦ rw (squeeze, k) (squeeze-IsTrimmed s)
  | inr (e, inr k) ↦ rw (squeeze, k) e
]

without_last_space-IsTrimmed : (s : String) → IsTrimmed s → IsTrimmed (without_last_space s)
unfolding without_last_space
without_last_space-IsTrimmed [] t = tt
without_last_space-IsTrimmed (c ∷ []) t = elim (Bool-cases (code c == 32)) [
  | inl e ↦ rw e tt
  | inr e ↦ rw e t
]
without_last_space-IsTrimmed (c ∷ d ∷ s) t = t

normalize-IsTrimmed : (s : String) → IsTrimmed (normalize s)
unfolding normalize
normalize-IsTrimmed s = without_last_space-IsTrimmed (squeeze false s) (squeeze-IsTrimmed s)

abbrev begins : (Char → Bool) → List String → Bool
begins p List.[] = false
begins p (List.◌∷◌ [] _) = false
begins p (List.◌∷◌ (c ∷ _) _) = p c

split-black :
    (c : Char) (s : String)
    → is_whitespace c ≡ false
    → split_whitespace (c ∷ s) ≡ List.◌∷◌ (c ∷ (cut s).0) (cut s).1
unfolding split_whitespace
split-black c s e = ap (λ (x : String × List String). push_word x.0 x.1) (cut-black c s e)

module _ (to_lowercase : String → String) (command_prefixes : List String) (max_distance : ℕ) where
  abbrev of_words : List String → WhisperRoute
  of_words = route_words to_lowercase command_prefixes max_distance

  route_normalized-of_words :
      (norm : String) (c : Char) (w : String) (ws : List String)
      → IsTrimmed norm
      → split_whitespace norm ≡ List.◌∷◌ (c ∷ w) ws
      → is_sigil c ≡ false
      → ltb (len norm) 2 ≡ false
      → route_normalized to_lowercase command_prefixes max_distance norm
        ≡ of_words (List.◌∷◌ (c ∷ w) ws)
  unfolding route_normalized route_core strip_sigil all
  route_normalized-of_words [] c w ws trimmed e plain long = cc
  route_normalized-of_words (d ∷ s) c w ws trimmed e plain long =
      let plain_d : is_sigil d ≡ false =
        ap (begins is_sigil) (sym (split-black d s trimmed) ∙ e) ∙ plain in
      rw (long, plain_d, e) refl

  -- An enabled chat gets or loses a whisper of at least two bytes, whose first word begins with no
  -- sigil, by its words alone, as they are without control characters.
  pub route_whisper-of_words :
      (content : String) (c : Char) (w : String) (ws : List String)
      → split_whitespace (without_controls content) ≡ List.◌∷◌ (c ∷ w) ws
      → is_sigil c ≡ false
      → ltb (len (normalize content)) 2 ≡ false
      → route_whisper to_lowercase command_prefixes max_distance true false content
        ≡ of_words (List.◌∷◌ (c ∷ w) ws)
  unfolding route_whisper
  route_whisper-of_words content c w ws e plain long =
      route_normalized-of_words (normalize content) c w ws (normalize-IsTrimmed content)
        (split-normalize content ∙ e) plain long

  -- Whatever the settings, a whisper of at least two bytes goes to the store if its first word,
  -- without control characters, begins with no sigil and is one of the prefixes, up to its case.
  pub route_whisper-store :
      (chat_enabled chat_dry_run : Bool) (content : String) (c : Char) (w : String)
      (ws : List String)
      → split_whitespace (without_controls content) ≡ List.◌∷◌ (c ∷ w) ws
      → is_sigil c ≡ false
      → ltb (len (normalize content)) 2 ≡ false
      → is_prefix command_prefixes (to_lowercase (c ∷ w)) ≡ true
      → route_whisper to_lowercase command_prefixes max_distance chat_enabled chat_dry_run content
        ≡ store
  unfolding route_whisper route_words
  route_whisper-store false dry content c w ws e plain long known = refl
  route_whisper-store true true content c w ws e plain long known = refl
  route_whisper-store true false content c w ws e plain long known =
      route_whisper-of_words content c w ws e plain long ∙ rw known refl
