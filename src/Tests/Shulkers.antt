-- ===== src/Tests/Shulkers.antt =====
-- The journal of the shulker operations.
use cj_store.Prelude.{◌≡◌, refl, true, false, none, some, List, [], ◌∷◌}
use cj_store.Prelude.Int.{pos}
use cj_store.Serde.{Serde}
use cj_store.Journal.{
  JournalEntry, World, Weather, MoveFaults, withdraw_from_chest, shulker_taken, fresh, start,
}
use cj_store.Journal.Start.{Evident, start-Evident, start-several}
use cj_store.Tests.Fixtures.{works, archives_well, archives_never, alone, plain}

abbrev Entries : Type 0
Entries = List JournalEntry

abbrev sj : Serde Entries Entries
sj = plain Entries

abbrev taken : JournalEntry
taken = record {
  operation_id = 1;
  operation_type = withdraw_from_chest;
  chest_id = pos 4;
  slot_index = 3;
  state = shulker_taken;
}

abbrev moves_well : MoveFaults Entries
moves_well = record { picked = true; archiving = archives_well }

abbrev moves_never : MoveFaults Entries
moves_never = record { picked = true; archiving = archives_never }

abbrev fair : Weather Entries
fair = record { moving = moves_well; writing = works [] }

abbrev idle : World Entries
idle = record { journal = fresh; next_operation_id = 1; disk = alone (some []); archives = [] }

abbrev busy : World Entries
busy = record {
  journal = record { entry = some taken; restored_leftover = false };
  next_operation_id = 2;
  disk = alone (some (taken ∷ []));
  archives = [];
}

start-Evident_example : Evident (taken ∷ []) (start sj [] true moves_well moves_well busy)
start-Evident_example = start-Evident sj [] true moves_well moves_well (taken ∷ []) busy refl

-- A leftover whose move to the archive failed.
abbrev restored : World Entries
restored = record busy { journal = record { entry = some taken; restored_leftover = true } }

abbrev gone : World Entries
gone = record restored { disk = alone none }

abbrev several : World Entries
several = record idle { disk = alone (some (taken ∷ taken ∷ [])) }

start-several_example :
    let w' = start sj [] true moves_well moves_well several in
    (w'.journal.restored_leftover ≡ true) × (w'.disk.live ≡ none)
start-several_example =
    start-several sj [] moves_well moves_well (taken ∷ taken ∷ []) several taken taken [] refl refl
      refl refl
