-- ===== src/WireBatch.antt =====
-- wire_batch.rs: the batch envelope that carries notes and attachments between peers.
pub mod Import
pub mod Export
pub mod Exchange
pub mod Arrivals
pub mod Merge
use mesh_pad.Base.{
  ℕ, Bool, true, false, not, ◌||◌, String, Option, none, some, List, [], ◌∷◌, map, ◌>>=◌,
  if◌then◌else◌, unwrap_or, nat_beq,
}
use mesh_pad.Base.Text.{is_empty}
use mesh_pad.External.Json.{Json}
use mesh_pad.External.Base64.{Byte, Base64}
use mesh_pad.WireStore
use mesh_pad.WireStore.{WireStore, count_if, import_loop}
use mesh_pad.AttachmentStore
use mesh_pad.AttachmentStore.{WireAttachmentStore}

-- The count, and the stores that a batch was imported into.
pub record Imported (Value : Type 0) : Type 0 where
  pub count : ℕ
  pub wire : WireStore Value
  pub attachments : WireAttachmentStore

module _ ⦃json : Json⦄ ⦃base64 : Base64⦄ where
  open json use {
    Value, Fields, number, string, array, object, get, as_str, as_u64, as_array, as_object,
    get_field,
  }
  open base64 use {encode, decode}

  -- `obj.get(name).and_then(|v| v.as_str()).unwrap_or("")`
  abbrev pub text_field : Fields → String → String
  text_field obj name = unwrap_or (do v ← get_field obj name; as_str v) ""

  abbrev pub upsert_decoded :
      WireAttachmentStore → String → String → Option (List Byte) → Bool × WireAttachmentStore
  upsert_decoded a note_id name none = (false, a)
  upsert_decoded a note_id name (some bytes) = AttachmentStore.upsert a note_id name bytes

  abbrev pub import_object : WireAttachmentStore → Option Fields → Bool × WireAttachmentStore
  import_object a none = (false, a)
  import_object a (some obj) =
      let note_id = text_field obj "note_id" in
      let name = text_field obj "name" in
      let b64 = text_field obj "bytes_base64" in
      if is_empty note_id || is_empty name || is_empty b64
      then (false, a)
      else upsert_decoded a note_id name (decode b64)

  -- One round of the loop over the attachments; the result says whether it is counted.
  unfoldable pub import_attachment : WireAttachmentStore → Value → Bool × WireAttachmentStore
  import_attachment a att = import_object a (as_object att)

  unfoldable pub attachment_loop : ℕ → List Value → WireAttachmentStore → ℕ × WireAttachmentStore
  attachment_loop count [] a = (count, a)
  attachment_loop count (att ∷ rest) a =
      let (accepted, a') = import_attachment a att in
      attachment_loop (count_if accepted count) rest a'

  -- `batch.get(name).and_then(|v| v.as_array())`, where a missing list is an empty loop
  abbrev pub list_field : Value → String → List Value
  list_field batch name = unwrap_or (do v ← get batch name; as_array v) []

  abbrev pub version : Value → ℕ
  version batch = unwrap_or (do v ← get batch "version"; as_u64 v) 0

  unfoldable pub import_batch : Value → WireStore Value → WireAttachmentStore → Imported Value
  import_batch batch wire attachments =
      if not (nat_beq (version batch) 1)
      then record { count = 0; wire = wire; attachments = attachments }
      else let (count, wire') = import_loop 0 (list_field batch "notes") wire in
        let (count', attachments') =
          attachment_loop count (list_field batch "attachments") attachments in
        record { count = count'; wire = wire'; attachments = attachments' }

  abbrev pub attachment_json : String × String × List Byte → Value
  attachment_json (note_id, name, bytes) = object (
      ("note_id", string note_id)
      ∷ ("name", string name)
      ∷ ("bytes_base64", string (encode bytes))
      ∷ [])

  unfoldable pub export_batch : WireStore Value → WireAttachmentStore → Value
  export_batch wire attachments = object (
      ("version", number 1)
      ∷ ("catalog", array (WireStore.catalog_heads wire))
      ∷ ("notes", array (WireStore.all_snapshots wire))
      ∷ ("attachments", array (map attachment_json (AttachmentStore.iter attachments)))
      ∷ [])
