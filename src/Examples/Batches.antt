-- ===== src/Examples/Batches.antt =====
-- The stores and the batch envelope at concrete notes and attachments.
use mesh_pad.Base.{
  ◌⊎◌, false, ◌≡◌, refl, String, true, some, List, [], ◌∷◌, arith, or_else, ◌>>=◌, ◌≢◌, ◌<◌,
  u32_mod, string_key, ◌+◌, filter_map, ◌↔◌, ◌≤◌, length, ◌&&◌, ◌==◌, if◌then◌else◌,
}
use native.Mathlib.Decide.{dec_lt}
use mesh_pad.Base.Text.{concat, split_once}
use mesh_pad.External.Base64.{Byte}
use mesh_pad.HashMap
use mesh_pad.WireStore
use mesh_pad.WireStore.{WireStore, empty_store, upsert, import_snapshots}
use mesh_pad.WireStore.Upsert.{note, IsKeyed, IsKeyed-empty, upsert-IsKeyed}
use mesh_pad.WireStore.Import.{last_with, identified}
use mesh_pad.AttachmentStore
use mesh_pad.AttachmentStore.{WireAttachmentStore}
use mesh_pad.AttachmentStore.Upsert.{
  IsSound, IsSound-empty, upsert-IsSound, blob, upsert_accepts_iff, get-upsert, get-upsert_nul,
}
use mesh_pad.WireBatch.{import_batch, export_batch, version, attachment_loop, import_attachment}
use mesh_pad.WireBatch.Import.{
  import_batch_lem, notes_of, attachments_of, accepted, read_attachment, last_blob,
}
use mesh_pad.WireBatch.Export.{nonempty}
use mesh_pad.WireBatch.Exchange.{
  Stores, IsWellFormed, receive, receive_lem, batch_sync, batch_sync_converges, NoEmptyBlob,
  empty_blob_lost,
}
use mesh_pad.Examples.Trees.{Tree, trees}
use mesh_pad.Examples.Latin.{byte, latin}

abbrev pub snapshot : String → String → Tree
snapshot id text =
    trees.object
      (("meta", trees.object (("id", trees.string id) ∷ [])) ∷ ("markdown", trees.string text) ∷ [])

abbrev pub left_wire : WireStore Tree
left_wire = (upsert empty_store (snapshot "a" "one")).1

abbrev pub right_wire : WireStore Tree
right_wire = (upsert (upsert empty_store (snapshot "a" "two")).1 (snapshot "b" "x")).1

pub left_wire-IsKeyed : IsKeyed left_wire
left_wire-IsKeyed = upsert-IsKeyed empty_store (snapshot "a" "one") IsKeyed-empty

pub right_wire-IsKeyed : IsKeyed right_wire
right_wire-IsKeyed =
    upsert-IsKeyed _ (snapshot "b" "x")
      (upsert-IsKeyed empty_store (snapshot "a" "two") IsKeyed-empty)

note_b : note right_wire "b" ≡ some (snapshot "b" "x")
unfolding upsert HashMap.get HashMap.insert WireStore.note_id_from_snapshot
note_b = refl

abbrev pub nine : List Byte
nine = byte 9 (omega arith) ∷ []

abbrev pub left_files : WireAttachmentStore
left_files = (AttachmentStore.upsert AttachmentStore.empty_store "a" "f.png" nine).1

left_files-IsSound : IsSound left_files
left_files-IsSound =
    upsert-IsSound AttachmentStore.empty_store "a" "f.png" nine (omega arith) IsSound-empty

upsert_accepts_iff_example :
    (((AttachmentStore.upsert left_files "a" "" nine).0 ≡ true)
      ↔ ((◌≢◌ {A = String} "a" "") × (◌≢◌ {A = String} "" "") × (length nine ≤ 16777216)))
    × ((((AttachmentStore.upsert left_files "a" "" nine).0 ≡ true)
          × (AttachmentStore.get (AttachmentStore.upsert left_files "a" "" nine).1 "a" ""
              ≡ some nine))
        ⊎ (((AttachmentStore.upsert left_files "a" "" nine).0 ≡ false)
            × ((AttachmentStore.upsert left_files "a" "" nine).1 ≡ left_files)))
upsert_accepts_iff_example = upsert_accepts_iff left_files "a" "" nine

get-upsert_example : AttachmentStore.get left_files "a" "f.png" ≡ (
    if (AttachmentStore.upsert AttachmentStore.empty_store "a" "f.png" nine).0
      && ◌==◌ {K = String} "a" "a"
      && ◌==◌ {K = String} "f.png" "f.png"
    then some nine
    else AttachmentStore.get AttachmentStore.empty_store "a" "f.png")
get-upsert_example =
    get-upsert AttachmentStore.empty_store "a" "f.png" "a" "f.png" nine (omega arith) (omega arith)

get-upsert_nul_example :
    AttachmentStore.get
      (AttachmentStore.upsert AttachmentStore.empty_store (concat "a" (concat "\0" "b")) "c" nine).1
      "a"
      (concat "b" (concat "\0" "c"))
    ≡ some nine
unfolding AttachmentStore.upsert
get-upsert_nul_example = get-upsert_nul AttachmentStore.empty_store "a" "b" "c" nine refl

abbrev pub left : Stores
left = record { wire = left_wire; attachments = left_files }

abbrev pub right : Stores
right = record { wire = right_wire; attachments = AttachmentStore.empty_store }

pub left-IsWellFormed : IsWellFormed left
left-IsWellFormed = record { keyed = left_wire-IsKeyed; sound = left_files-IsSound }

pub right-IsWellFormed : IsWellFormed right
right-IsWellFormed = record { keyed = right_wire-IsKeyed; sound = IsSound-empty }

receive_lem_example :
    ((id : String)
      → note (receive left right).wire id ≡ or_else (note right.wire id) (note left.wire id))
    × ((key : String)
        → blob (receive left right).attachments key
          ≡ or_else (blob right.attachments key >>= nonempty) (blob left.attachments key))
    × IsWellFormed (receive left right)
receive_lem_example = receive_lem left right left-IsWellFormed right-IsWellFormed

pub right-NoEmptyBlob : NoEmptyBlob right
unfolding HashMap.get
right-NoEmptyBlob key = cc

pub left-NoEmptyBlob : NoEmptyBlob left
unfolding HashMap.get HashMap.insert AttachmentStore.upsert
left-NoEmptyBlob key = ground arith

batch_sync_converges_example :
    let (local', remote') = batch_sync left right in
    ((id : String)
      → (note local'.wire id ≡ or_else (note right.wire id) (note left.wire id))
        × (note remote'.wire id ≡ note local'.wire id))
    × ((key : String)
        → (blob local'.attachments key
            ≡ or_else (blob right.attachments key) (blob left.attachments key))
          × (blob remote'.attachments key ≡ blob local'.attachments key))
batch_sync_converges_example =
    batch_sync_converges left right left-IsWellFormed right-IsWellFormed left-NoEmptyBlob
      right-NoEmptyBlob

abbrev hollow : Stores
hollow = record {
  wire = left_wire;
  attachments = (AttachmentStore.upsert AttachmentStore.empty_store "a" "f.png" []).1;
}

hollow-IsWellFormed : IsWellFormed hollow
hollow-IsWellFormed = record {
  keyed = left_wire-IsKeyed;
  sound = upsert-IsSound AttachmentStore.empty_store "a" "f.png" [] (omega arith) IsSound-empty;
}

hollow_blob : blob hollow.attachments (AttachmentStore.attachment_key "a" "f.png") ≡ some []
unfolding HashMap.get HashMap.insert AttachmentStore.upsert AttachmentStore.attachment_key
hollow_blob = refl

empty_blob_lost_example :
    blob (receive right hollow).attachments (AttachmentStore.attachment_key "a" "f.png")
    ≡ blob right.attachments (AttachmentStore.attachment_key "a" "f.png")
empty_blob_lost_example =
    empty_blob_lost right hollow _ right-IsWellFormed hollow-IsWellFormed hollow_blob

abbrev future : Tree
future = trees.object (("version", trees.number 2) ∷ [])

abbrev sent : Tree
sent = export_batch right.wire left.attachments

version-sent : version sent ≡ 1
unfolding export_batch
version-sent = refl

sent_fits : identified (notes_of sent) + accepted (attachments_of sent) < u32_mod
unfolding export_batch identified accepted WireStore.all_snapshots WireStore.note_id_from_snapshot
    AttachmentStore.iter filter_map upsert AttachmentStore.upsert HashMap.insert
    AttachmentStore.attachment_key split_once read_attachment dec_lt
sent_fits = omega arith

import_batch_lem_example :
    ((id : String)
      → note (import_batch sent left_wire left_files).wire id
        ≡ or_else (last_with id (notes_of sent)) (note left_wire id))
    × ((key : String)
        → blob (import_batch sent left_wire left_files).attachments key
          ≡ or_else (last_blob key (attachments_of sent)) (blob left_files key))
    × ((import_batch sent left_wire left_files).count
        ≡ identified (notes_of sent) + accepted (attachments_of sent))
import_batch_lem_example = import_batch_lem sent left_wire left_files version-sent sent_fits

-- The count that the receiver reports: two notes and one attachment.
sent_count : (import_batch sent empty_store AttachmentStore.empty_store).count ≡ 3
unfolding export_batch import_batch attachment_loop import_attachment WireStore.import_loop
    WireStore.count_if WireStore.all_snapshots WireStore.note_id_from_snapshot AttachmentStore.iter
    filter_map upsert AttachmentStore.upsert HashMap.insert AttachmentStore.attachment_key
    split_once dec_lt
sent_count = refl
