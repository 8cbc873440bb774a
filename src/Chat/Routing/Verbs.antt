-- ===== src/Chat/Routing/Verbs.antt =====
-- src/config.rs and src/store/command.rs: the router's default prefixes and the parser's verbs.
use Prim.Native.Char.{Char, code}
use Prim.Native.String.{[], ◌∷◌}
use cj_store.Prelude.{◌≡◌, Bool, true, false, List, String, ltb}
use cj_store.Chat.Routing.{is_sigil, is_prefix}

abbrev pub default_chat_command_prefixes : List String
default_chat_command_prefixes = List.◌∷◌ "buy" (
    List.◌∷◌ "b" (
      List.◌∷◌ "sell" (
        List.◌∷◌ "s" (
          List.◌∷◌ "deposit" (
            List.◌∷◌ "d" (
              List.◌∷◌ "withdraw" (
                List.◌∷◌ "w" (
                  List.◌∷◌ "price" (
                    List.◌∷◌ "p" (
                      List.◌∷◌ "balance" (
                        List.◌∷◌ "bal" (
                          List.◌∷◌ "pay" (
                            List.◌∷◌ "items" (
                              List.◌∷◌ "queue" (
                                List.◌∷◌ "q" (
                                  List.◌∷◌ "cancel" (
                                    List.◌∷◌ "c" (
                                      List.◌∷◌ "status" (
                                        List.◌∷◌ "help" (
                                          List.◌∷◌ "h" (
                                            List.◌∷◌ "additem" (
                                              List.◌∷◌ "ai" (
                                                List.◌∷◌ "removeitem" (
                                                  List.◌∷◌ "ri" (
                                                    List.◌∷◌ "addcurrency" (
                                                      List.◌∷◌ "ac" (
                                                        List.◌∷◌ "removecurrency" (
                                                          List.◌∷◌ "rc"
                                                            List.[]))))))))))))))))))))))))))))

abbrev pub is_ascii : Char → Bool
is_ascii c = ltb (code c) 128

abbrev IsListed : (String → String) → String → Type 0
IsListed to_lowercase [] = Unit {0}
IsListed to_lowercase (c ∷ w) =
    (is_sigil c ≡ false) × (is_prefix default_chat_command_prefixes (to_lowercase (c ∷ w)) ≡ true)
