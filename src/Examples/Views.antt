-- ===== src/Examples/Views.antt =====
-- The views of concrete stores.
use mathlib.Core.Quot.{Quot}
use mesh_pad.Base.{◌≡◌, refl, [], ◌∷◌, ◌++◌}
use mesh_pad.WireBatch.Merge.{Held, View}
use mesh_pad.WireBatch.Merge.Gather.{gather, gather_latest}
use mesh_pad.Examples.Trees.{trees}
use mesh_pad.Examples.Latin.{latin}
use mesh_pad.Examples.Batches.{
  left, right, left-IsWellFormed, right-IsWellFormed, left-NoEmptyBlob, right-NoEmptyBlob,
}

abbrev left_held : Held
left_held = record { stores = left; well_formed = left-IsWellFormed; no_empty = left-NoEmptyBlob }

abbrev right_held : Held
right_held = record {
  stores = right;
  well_formed = right-IsWellFormed;
  no_empty = right-NoEmptyBlob;
}

abbrev left_view : View
left_view = Quot.mk left_held

abbrev right_view : View
right_view = Quot.mk right_held

-- The right one imports the left one's batch, its own, and the left one's again.
gather_latest_example :
    gather right_view ((left_view ∷ []) ++ right_view ∷ left_view ∷ [])
    ≡ gather right_view (right_view ∷ left_view ∷ [])
gather_latest_example =
    gather_latest right_view (left_view ∷ []) (right_view ∷ left_view ∷ [])
      ((right_view ∷ [], [], refl), tt)
