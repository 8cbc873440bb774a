-- ===== src/ChestSync/Lookup.antt =====
-- What a report changes, seen through the lookup of a chest by its identifier.
use cj_store.Prelude.{
  ◌≡◌, ◌≢◌, true, false, Option, none, some, List, [], ◌∷◌, Result, ok, err, if◌then◌else◌,
}
use cj_store.Prelude.Int.{ℤ, pos, ltb_ℤ, eq_ℤ}
use cj_store.Types.{Chest, Node}
use cj_store.ItemNames.{new}
use cj_store.ChestSync.{ChestSyncReport, SyncError, invalid_item, not_found, synced, Depot}

-- The first chest with an identifier.
unfoldable pub find_chest : ℤ → List Chest → Option Chest
find_chest i [] = none
find_chest i (c ∷ cs) = let rest = find_chest i cs in if eq_ℤ c.id i then some c else rest

abbrev pub or_later : Option Chest → Option Chest → Option Chest
or_later (some c) later = some c
or_later none later = later

unfoldable pub find_in_nodes : ℤ → List Node → Option Chest
unfolding find_chest
find_in_nodes i [] = none
find_in_nodes i (n ∷ ns) = or_later (find_chest i n.chests) (find_in_nodes i ns)

-- Slot by slot: a count of 0 or more replaces the old one, a negative one leaves it, and so does the
-- end of the counts.
abbrev pub Counted : List ℤ → List ℤ → List ℤ → Type 0
Counted [] ns [] = Unit {0}
Counted [] ns (_ ∷ _) = ⊥
Counted (x ∷ xs) ns [] = ⊥
Counted (x ∷ xs) [] (y ∷ ys) = (y ≡ x) × (ys ≡ xs)
Counted (x ∷ xs) (n ∷ ns) (y ∷ ys) =
    (ltb_ℤ n (pos 0) ≡ true → y ≡ x) × (ltb_ℤ n (pos 0) ≡ false → y ≡ n) × Counted xs ns ys

-- The chest 0 holds diamonds and the chest 1 the overflow, whatever the report says; another one
-- holds the item of the report in its canonical form.
abbrev pub ItemUpdates : ChestSyncReport → Chest → Chest → Type 0
ItemUpdates report c c' =
    (c.id ≡ pos 0 → c'.item ≡ "diamond")
    × (c.id ≡ pos 1 → c'.item ≡ "overflow")
    × (c.id ≢ pos 0 → c.id ≢ pos 1 → new report.item ≡ ok c'.item)

-- What a report makes of its chest: nothing but its item and its slots changes.
abbrev pub Updates : ChestSyncReport → Chest → Chest → Type 0
Updates report c c' =
    (c'.id ≡ c.id)
    × (c'.node_id ≡ c.node_id)
    × (c'.index ≡ c.index)
    × (c'.position ≡ c.position)
    × ItemUpdates report c c'
    × Counted c.amounts report.amounts c'.amounts

-- What a list of chests or nodes is after the report: the chest with its identifier is as the report
-- says, and the others are found as before.
abbrev pub Synced : {A : Type 0} → (ℤ → A → Option Chest) → ChestSyncReport → A → A → Type 0
Synced find report before after =
    ((c : Chest) × (c' : Chest) × (find report.chest_id before ≡ some c)
      × Updates report c c'
      × (find report.chest_id after ≡ some c'))
    × ((i : ℤ) → i ≢ report.chest_id → find i after ≡ find i before)

-- What comes of a report.
abbrev pub Outcome :
    {A : Type 0}
    → (ℤ → A → Option Chest)
    → ChestSyncReport
    → A
    → Option (Result A SyncError)
    → Type 0
Outcome find report before none = find report.chest_id before ≡ none
Outcome find report before (some (err e)) =
    (c : Chest) × (find report.chest_id before ≡ some c) × (synced report c ≡ err e)
Outcome find report before (some (ok after)) = Synced find report before after

-- What the store is after a report, by the answer.
abbrev pub Applied : ChestSyncReport → Depot → Result Depot SyncError → Type 0
Applied report d (ok d') =
    Synced find_in_nodes report d.storage.nodes d'.storage.nodes
    × (d'.dirty ≡ true)
    × (d'.storage.position ≡ d.storage.position)
Applied report d (err (not_found i)) =
    (i ≡ report.chest_id) × (find_in_nodes report.chest_id d.storage.nodes ≡ none)
Applied report d (err (invalid_item e)) =
    (c : Chest) × (find_in_nodes report.chest_id d.storage.nodes ≡ some c)
    × (c.id ≢ pos 0)
    × (c.id ≢ pos 1)
    × (new report.item ≡ err e)
