-- ===== src/Chat/Routing.antt =====
-- src/chat/conversation.rs: `route_whisper`, which sends a whisper to the store, to the chat or
-- nowhere. `len` counts the bytes of a text. The lower case of a character beyond ASCII stands in
-- tables of the standard library, so `to_lowercase` is a parameter.
pub mod Words
pub mod Verbs
use Prim.Native.Char.{Char, code}
use Prim.Native.String.{[], ◌∷◌, len}
use mathlib.Core.List
use cj_store.Prelude.{
  ℕ, ◌+◌, ◌/◌, ◌%◌, Bool, true, false, not, ◌&&◌, ◌||◌, List, String, if◌then◌else◌, str_eq, ltb,
  leb, ◌==◌, length,
}
use cj_store.ItemNames.{
  is_between, is_ascii_lowercase, is_ascii_uppercase, is_ascii_digit, all, to_ascii_lowercase,
}
use cj_store.Commands.{is_whitespace, split_whitespace}
use cj_store.Chat.Distance.{levenshtein}

pub data WhisperRoute : Type 0 where
  drop store chat : WhisperRoute

-- `char::is_control`
unfoldable pub is_control : Char → Bool
is_control c = is_between c 0 31 || is_between c 127 159

pub data CharKind : Type 0 where
  white control kept : CharKind

unfoldable pub char_kind : Char → CharKind
unfolding is_whitespace is_control
char_kind c = if is_whitespace c then white else if is_control c then control else kept

-- `room` says that something stands before, and no space just before.
unfoldable pub squeeze : Bool → String → String
unfolding char_kind
squeeze room [] = []
squeeze room (c ∷ s) = elim (char_kind c) [
  | white ↦ let rest = squeeze false s in if room then " " ∷ rest else rest
  | control ↦ squeeze room s
  | kept ↦ c ∷ squeeze true s
]

unfoldable pub without_last_space : String → String
without_last_space [] = []
without_last_space (c ∷ []) = if code c == 32 then [] else c ∷ []
without_last_space (c ∷ d ∷ s) = c ∷ without_last_space (d ∷ s)

unfoldable pub normalize : String → String
unfolding squeeze without_last_space
normalize content = without_last_space (squeeze false content)

pub data StripResult : Type 0 where
  stripped unchanged : String → StripResult
  multiple_sigils : StripResult

abbrev pub is_sigil : Char → Bool
is_sigil c = code c == 33 || code c == 47

abbrev pub is_ascii_alphabetic : Char → Bool
is_ascii_alphabetic c = is_ascii_lowercase c || is_ascii_uppercase c

abbrev pub after_sigil : Char → String → StripResult
after_sigil c [] = unchanged (c ∷ [])
after_sigil c (d ∷ s) =
    if is_sigil d
    then multiple_sigils
    else if is_ascii_alphabetic d
    then stripped (d ∷ s)
    else unchanged (c ∷ d ∷ s)

unfoldable pub strip_sigil : String → StripResult
strip_sigil [] = unchanged []
strip_sigil (c ∷ s) = if not (is_sigil c) then unchanged (c ∷ s) else after_sigil c s

-- The UTF-8 of a text
abbrev pub bytes_of : ℕ → List ℕ → List ℕ
bytes_of n rest =
    if ltb n 128
    then List.◌∷◌ n rest
    else if ltb n 2048
    then List.◌∷◌ (192 + n / 64) (List.◌∷◌ (128 + n % 64) rest)
    else if ltb n 65536
    then List.◌∷◌ (224 + n / 4096) (List.◌∷◌ (128 + n / 64 % 64) (List.◌∷◌ (128 + n % 64) rest))
    else List.◌∷◌ (240 + n / 262144) (
        List.◌∷◌ (128 + n / 4096 % 64)
          (List.◌∷◌ (128 + n / 64 % 64) (List.◌∷◌ (128 + n % 64) rest)))

unfoldable pub as_bytes : String → List ℕ
as_bytes [] = List.[]
as_bytes (c ∷ s) = bytes_of (code c) (as_bytes s)

unfoldable pub is_prefix : List String → String → Bool
unfolding to_ascii_lowercase
is_prefix List.[] token = false
is_prefix (List.◌∷◌ p ps) token =
    str_eq (to_ascii_lowercase p) (to_ascii_lowercase token) || is_prefix ps token

abbrev pub is_alphanumeric : Char → Bool
is_alphanumeric c = is_ascii_alphabetic c || is_ascii_digit c

unfoldable pub all_alphanumeric : List String → Bool
unfolding all
all_alphanumeric List.[] = true
all_alphanumeric (List.◌∷◌ w ws) = all is_alphanumeric w && all_alphanumeric ws

abbrev pub is_command_shaped : List String → Bool
is_command_shaped tokens = leb (length tokens) 3 && all_alphanumeric tokens

-- A prefix that is not longer than the distance is not compared.
unfoldable pub is_typo : ℕ → List String → String → Bool
unfolding as_bytes levenshtein
is_typo max_distance List.[] token = false
is_typo max_distance (List.◌∷◌ p ps) token =
    let rest = is_typo max_distance ps token in
    let dist = levenshtein (as_bytes token) (as_bytes p) in
    if leb (len p) max_distance then rest else (ltb 0 dist && leb dist max_distance) || rest

module _ (to_lowercase : String → String) (command_prefixes : List String) (max_distance : ℕ) where
  unfoldable pub route_words : List String → WhisperRoute
  unfolding is_prefix all_alphanumeric is_typo
  route_words List.[] = drop
  route_words (List.◌∷◌ w ws) =
      let token = to_lowercase w in
      if is_prefix command_prefixes token
      then store
      else if is_command_shaped (List.◌∷◌ w ws)
          && ltb 0 max_distance
          && is_typo max_distance command_prefixes token
      then store
      else chat

  unfoldable pub route_core : StripResult → WhisperRoute
  unfolding route_words split_whitespace
  route_core multiple_sigils = chat
  route_core (stripped s) = route_words (split_whitespace s)
  route_core (unchanged s) = route_words (split_whitespace s)

  unfoldable pub route_normalized : String → WhisperRoute
  unfolding route_core strip_sigil all
  route_normalized norm =
      if ltb (len norm) 2
      then drop
      else if all is_sigil norm
      then drop
      else route_core (strip_sigil norm)

  unfoldable pub route_whisper : Bool → Bool → String → WhisperRoute
  unfolding route_normalized normalize
  route_whisper chat_enabled chat_dry_run content =
      if not chat_enabled || chat_dry_run then store else route_normalized (normalize content)
