-- ===== src/WireBatch/Import.antt =====
-- `import_batch` as one update of both stores, by id and by key.
use mesh_pad.Base.{
  ℕ, ◌+◌, ◌<◌, ◌≡◌, refl, ap, sym, ◌∙◌, Bool, false, ◌||◌, String, Option, none, some, List, [],
  ◌∷◌, arith, ◌≢◌, if◌then◌else◌, or_else, or_else_assoc, u32_mod, add_u32-eq, All,
}
use mesh_pad.Base.Text.{is_empty}
use mesh_pad.External.Json.{Json}
use mesh_pad.External.Base64.{Byte, Base64}
use mesh_pad.WireStore.{WireStore, count_if, import_loop}
use mesh_pad.WireStore.Upsert.{note, IsKeyed}
use mesh_pad.WireStore.Import.{
  last_with, identified, note-import_loop, import_loop-IsKeyed, count-import_loop,
}
use mesh_pad.AttachmentStore
use mesh_pad.AttachmentStore.{WireAttachmentStore}
use mesh_pad.AttachmentStore.Keys.{NulFree}
use mesh_pad.AttachmentStore.Upsert.{
  blob, admissible, offers_blob, blob-upsert, upsert_accepts, upsert-IsSound, IsSound,
}
use mesh_pad.WireBatch.{
  text_field, upsert_decoded, import_object, import_attachment, attachment_loop, list_field,
  version, import_batch,
}

module _ ⦃json : Json⦄ ⦃base64 : Base64⦄ where
  open json use {Value, Fields, as_object}
  open base64 use {decode}

  -- What an entry of the list stands for: a note id, a name and bytes.
  abbrev read_bytes : String → String → Option (List Byte) → Option (String × String × List Byte)
  read_bytes note_id name none = none
  read_bytes note_id name (some bytes) = some (note_id, name, bytes)

  abbrev read_object : Option Fields → Option (String × String × List Byte)
  read_object none = none
  read_object (some obj) =
      if is_empty (text_field obj "bytes_base64")
      then none
      else read_bytes (text_field obj "note_id") (text_field obj "name")
          (decode (text_field obj "bytes_base64"))

  unfoldable pub read_attachment : Value → Option (String × String × List Byte)
  read_attachment att = read_object (as_object att)

  abbrev pub entry_admissible : Option (String × String × List Byte) → Bool
  entry_admissible none = false
  entry_admissible (some (note_id, name, bytes)) = admissible note_id name bytes

  abbrev pub entry_offers : Option (String × String × List Byte) → String → Option (List Byte)
  entry_offers none key = none
  entry_offers (some (note_id, name, bytes)) key = offers_blob note_id name bytes key

  -- The last bytes that the list brings for a key.
  unfoldable pub last_blob : String → List Value → Option (List Byte)
  last_blob key [] = none
  last_blob key (att ∷ atts) = or_else (last_blob key atts) (entry_offers (read_attachment att) key)

  -- How many entries of the list are accepted.
  unfoldable pub accepted : List Value → ℕ
  accepted [] = 0
  accepted (att ∷ atts) = (if entry_admissible (read_attachment att) then 1 else 0) + accepted atts

  abbrev upsert_entry :
      WireAttachmentStore → Option (String × String × List Byte) → Bool × WireAttachmentStore
  upsert_entry a none = (false, a)
  upsert_entry a (some (note_id, name, bytes)) = AttachmentStore.upsert a note_id name bytes

  upsert_decoded_lem :
      (a : WireAttachmentStore) (note_id name b64 : String) (decoded : Option (List Byte))
      → (if is_empty note_id || is_empty name || is_empty b64
          then (false, a)
          else upsert_decoded a note_id name decoded)
        ≡ upsert_entry a (if is_empty b64 then none else read_bytes note_id name decoded)
  unfolding AttachmentStore.upsert
  upsert_decoded_lem a note_id name b64 none = ground arith
  upsert_decoded_lem a note_id name b64 (some bytes) = ground arith

  import_object_lem :
      (a : WireAttachmentStore) (o : Option Fields)
      → import_object a o ≡ upsert_entry a (read_object o)
  import_object_lem a none = refl
  import_object_lem a (some obj) = upsert_decoded_lem a _ _ _ _

  -- A round of the loop is an upload of what the entry stands for.
  import_attachment_lem :
      (a : WireAttachmentStore) (att : Value)
      → import_attachment a att ≡ upsert_entry a (read_attachment att)
  unfolding import_attachment read_attachment
  import_attachment_lem a att = import_object_lem a (as_object att)

  upsert_entry_accepts :
      (a : WireAttachmentStore) (o : Option (String × String × List Byte))
      → (upsert_entry a o).0 ≡ entry_admissible o
  upsert_entry_accepts a none = refl
  upsert_entry_accepts a (some (note_id, name, bytes)) = upsert_accepts a note_id name bytes

  blob-upsert_entry :
      (a : WireAttachmentStore) (o : Option (String × String × List Byte)) (key : String)
      → blob (upsert_entry a o).1 key ≡ or_else (entry_offers o key) (blob a key)
  blob-upsert_entry a none key = refl
  blob-upsert_entry a (some (note_id, name, bytes)) key = blob-upsert a note_id name bytes key

  abbrev pub IsPlainEntry : Option (String × String × List Byte) → Type 0
  IsPlainEntry none = Unit
  IsPlainEntry (some (note_id, name, bytes)) = NulFree note_id

  upsert_entry-IsSound :
      (a : WireAttachmentStore) (o : Option (String × String × List Byte))
      → IsPlainEntry o
      → IsSound a
      → IsSound (upsert_entry a o).1
  upsert_entry-IsSound a none p s = s
  upsert_entry-IsSound a (some (note_id, name, bytes)) p s = upsert-IsSound a note_id name bytes p s

  pub blob-attachment_loop :
      (atts : List Value) (count : ℕ) (a : WireAttachmentStore) (key : String)
      → blob (attachment_loop count atts a).1 key ≡ or_else (last_blob key atts) (blob a key)
  unfolding attachment_loop last_blob
  blob-attachment_loop [] count a key = refl
  blob-attachment_loop (att ∷ atts) count a key =
      blob-attachment_loop atts (count_if (import_attachment a att).0 count)
        (import_attachment a att).1 key
      ∙ rw (import_attachment_lem a att, blob-upsert_entry a (read_attachment att) key)
          (sym (or_else_assoc (last_blob key atts) _ _))

  pub attachment_loop-IsSound :
      (atts : List Value) (count : ℕ) (a : WireAttachmentStore)
      → All (λ att. IsPlainEntry (read_attachment att)) atts
      → IsSound a
      → IsSound (attachment_loop count atts a).1
  unfolding attachment_loop
  attachment_loop-IsSound [] count a p s = s
  attachment_loop-IsSound (att ∷ atts) count a p s =
      attachment_loop-IsSound atts (count_if (import_attachment a att).0 count)
        (import_attachment a att).1 p.1
        (rw (import_attachment_lem a att) (upsert_entry-IsSound a (read_attachment att) p.0 s))

  pub count-attachment_loop :
      (atts : List Value) (count : ℕ) (a : WireAttachmentStore)
      → count + accepted atts < u32_mod
      → (attachment_loop count atts a).0 ≡ count + accepted atts
  unfolding attachment_loop accepted count_if
  count-attachment_loop [] count a h = omega arith
  count-attachment_loop (att ∷ atts) count a h = ground (
    arith,
    ap (λ (r : Bool × WireAttachmentStore). r.0) (import_attachment_lem a att),
    upsert_entry_accepts a (read_attachment att),
    add_u32-eq count 1,
    count-attachment_loop atts (count_if (import_attachment a att).0 count)
        (import_attachment a att).1,
  )

  abbrev pub notes_of : Value → List Value
  notes_of batch = list_field batch "notes"

  abbrev pub attachments_of : Value → List Value
  attachments_of batch = list_field batch "attachments"

  -- A batch of another version changes nothing and counts nothing.
  pub import_batch_refused :
      (batch : Value) (w : WireStore Value) (a : WireAttachmentStore)
      → version batch ≢ 1
      → import_batch batch w a ≡ record { count = 0; wire = w; attachments = a }
  unfolding import_batch
  import_batch_refused batch w a h = ground arith

  -- The loop over the attachments goes on from the count of the notes.
  abbrev notes_count : Value → WireStore Value → ℕ
  notes_count batch w = (import_loop 0 (notes_of batch) w).0

  import_batch_loops :
      (batch : Value) (w : WireStore Value) (a : WireAttachmentStore)
      → version batch ≡ 1
      → import_batch batch w a ≡ record {
        count = (attachment_loop (notes_count batch w) (attachments_of batch) a).0;
        wire = (import_loop 0 (notes_of batch) w).1;
        attachments = (attachment_loop (notes_count batch w) (attachments_of batch) a).1;
      }
  unfolding import_batch
  import_batch_loops batch w a v1 = ground arith

  module _ (batch : Value) (w : WireStore Value) (a : WireAttachmentStore)
      (v1 : version batch ≡ 1) where
    pub note-import_batch :
        (id : String)
        → note (import_batch batch w a).wire id
          ≡ or_else (last_with id (notes_of batch)) (note w id)
    note-import_batch id =
        rw (import_batch_loops batch w a v1) (note-import_loop (notes_of batch) 0 w id)

    pub blob-import_batch :
        (key : String)
        → blob (import_batch batch w a).attachments key
          ≡ or_else (last_blob key (attachments_of batch)) (blob a key)
    blob-import_batch key =
        rw (import_batch_loops batch w a v1) (blob-attachment_loop (attachments_of batch) _ a key)

    pub import_batch-IsKeyed : IsKeyed w → IsKeyed (import_batch batch w a).wire
    import_batch-IsKeyed k =
        rw (import_batch_loops batch w a v1) (import_loop-IsKeyed (notes_of batch) 0 w k)

    pub import_batch-IsSound :
        All (λ att. IsPlainEntry (read_attachment att)) (attachments_of batch)
        → IsSound a
        → IsSound (import_batch batch w a).attachments
    import_batch-IsSound p s =
        rw (import_batch_loops batch w a v1)
          (attachment_loop-IsSound (attachments_of batch) _ a p s)

    pub count-import_batch :
        identified (notes_of batch) + accepted (attachments_of batch) < u32_mod
        → (import_batch batch w a).count
          ≡ identified (notes_of batch) + accepted (attachments_of batch)
    count-import_batch h = rw (import_batch_loops batch w a v1) (
        omega (
          arith,
          count-import_loop (notes_of batch) 0 w,
          count-attachment_loop (attachments_of batch) (notes_count batch w) a,
        ))

  -- A batch of version 1 gives each note id and each blob key the last entry of the batch that is
  -- accepted for it, and leaves the others; the count is that of the accepted entries, where that
  -- is below 2^32.
  pub import_batch_lem :
      (batch : Value) (w : WireStore Value) (a : WireAttachmentStore)
      → version batch ≡ 1
      → identified (notes_of batch) + accepted (attachments_of batch) < u32_mod
      → ((id : String)
          → note (import_batch batch w a).wire id
            ≡ or_else (last_with id (notes_of batch)) (note w id))
        × ((key : String)
            → blob (import_batch batch w a).attachments key
              ≡ or_else (last_blob key (attachments_of batch)) (blob a key))
        × ((import_batch batch w a).count
            ≡ identified (notes_of batch) + accepted (attachments_of batch))
  import_batch_lem batch w a v1 h = (
    note-import_batch batch w a v1,
    blob-import_batch batch w a v1,
    count-import_batch batch w a v1 h,
  )
