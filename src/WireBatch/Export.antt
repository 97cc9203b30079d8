-- ===== src/WireBatch/Export.antt =====
-- `export_batch`: what a reader of the batch finds in it.
use text.Mathlib.TextEquality.{eq_iff}
use mesh_pad.Base.{
  ◌≡◌, refl, sym, ◌∙◌, false, String, Option, none, some, List, [], ◌∷◌, map, filter_map, arith,
  if◌then◌else◌, or_else, or_else-none, subst, ◌>>=◌, Bool-cases, inl, inr, All, string_key, ◌==◌,
}
use mesh_pad.Base.Text.{is_empty, split_once}
use mesh_pad.External.Json.{Json}
use mesh_pad.External.Base64.{Byte, Base64}
use mesh_pad.HashMap
use mesh_pad.HashMap.{find}
use mesh_pad.HashMap.Distinct.{Keys}
use mesh_pad.WireStore
use mesh_pad.WireStore.{WireStore}
use mesh_pad.AttachmentStore
use mesh_pad.AttachmentStore.{WireAttachmentStore, attachment_key, iter_entry, with_bytes}
use mesh_pad.AttachmentStore.Keys.{NulFree, split_once-attachment_key}
use mesh_pad.AttachmentStore.Upsert.{blob, offers_blob, is_empty_iff, IsSmall, IsPlainKey, IsSound}
use mesh_pad.WireBatch.{attachment_json, version, export_batch}
use mesh_pad.WireBatch.Import.{
  read_attachment, entry_offers, last_blob, notes_of, attachments_of, IsPlainEntry,
}

-- The bytes that survive the encoding: an empty blob does not.
abbrev pub nonempty : List Byte → Option (List Byte)
nonempty [] = none
nonempty (b ∷ bytes) = some (b ∷ bytes)

abbrev tagged : String → String → Option (List Byte) → Option (String × String × List Byte)
tagged note_id name none = none
tagged note_id name (some bytes) = some (note_id, name, bytes)

module _ ⦃json : Json⦄ ⦃base64 : Base64⦄ where
  open json use {
    Value, string, fields_of, get-object, as_object-object, get_field-fields_of, as_str-string,
    as_u64-number, as_array-array,
  }
  open base64 use {encode, decode-encode, encode-nil}

  pub version-export_batch :
      (w : WireStore Value) (a : WireAttachmentStore) → version (export_batch w a) ≡ 1
  unfolding export_batch
  version-export_batch w a = rw (get-object) (rw (as_u64-number 1 (omega arith)))

  pub notes_of-export_batch :
      (w : WireStore Value) (a : WireAttachmentStore)
      → notes_of (export_batch w a) ≡ WireStore.all_snapshots w
  unfolding export_batch
  notes_of-export_batch w a = rw get-object (rw as_array-array)

  pub attachments_of-export_batch :
      (w : WireStore Value) (a : WireAttachmentStore)
      → attachments_of (export_batch w a) ≡ map attachment_json (AttachmentStore.iter a)
  unfolding export_batch
  attachments_of-export_batch w a = rw get-object (rw as_array-array)

  encode-ne-empty : (b : Byte) (bytes : List Byte) → is_empty (encode (b ∷ bytes)) ≡ false
  encode-ne-empty b bytes = elim (Bool-cases (is_empty (encode (b ∷ bytes)))) [
    | inl e ↦
        let same : encode (b ∷ bytes) ≡ encode [] = (is_empty_iff _).0 e ∙ sym encode-nil in
        absurd (cc (decode-encode (b ∷ bytes), decode-encode [], same))
    | inr e ↦ e
  ]

  read_attachment-attachment_json :
      (note_id name : String) (bytes : List Byte)
      → read_attachment (attachment_json (note_id, name, bytes))
        ≡ tagged note_id name (nonempty bytes)
  unfolding read_attachment
  read_attachment-attachment_json note_id name [] =
      simp (as_object-object, get_field-fields_of, as_str-string, encode-nil)
  read_attachment-attachment_json note_id name (b ∷ bytes) =
      simp (as_object-object, get_field-fields_of, as_str-string, encode-ne-empty, decode-encode)

  offers-tagged :
      (key k note_id name : String) (bytes : List Byte)
      → is_empty note_id ≡ false
      → is_empty name ≡ false
      → k ≡ attachment_key note_id name
      → IsSmall k bytes
      → entry_offers (tagged note_id name (nonempty bytes)) key
        ≡ (if k == key then nonempty bytes else none)
  unfolding offers_blob
  offers-tagged key k note_id name [] hn hm e small = ground arith
  offers-tagged key k note_id name (b ∷ bytes) hn hm e small = rw e (ground arith)

  exported : List (String × List Byte) → List Value
  exported m = map attachment_json (filter_map iter_entry m)

  exported-cons :
      (k note_id name : String) (bytes : List Byte) (m : List (String × List Byte))
      → split_once k 0 ≡ some (note_id, name)
      → exported ((k, bytes) ∷ m) ≡ attachment_json (note_id, name, bytes) ∷ exported m
  unfolding exported filter_map
  exported-cons k note_id name bytes m e = rw e

  split_plain :
      (k : String) (bytes : List Byte) (p : IsPlainKey k bytes) → split_once k 0 ≡ some (p.0, p.1)
  split_plain k bytes (note_id, name, free, hn, hm, e) =
      rw e (split_once-attachment_key note_id name free)

  merge_lem :
      (key k : String) (bytes : List Byte) (m : List (String × List Byte))
      → find k m ≡ none
      → or_else (find key m >>= nonempty) (if k == key then nonempty bytes else none)
        ≡ (find key ((k, bytes) ∷ m) >>= nonempty)
  merge_lem key k bytes m absent = elim (Bool-cases (string_key.same k key)) [
    | inl same ↦ rw same (rw (subst (λ i. find i m ≡ none) ((eq_iff k key).0 same) absent) refl)
    | inr other ↦ rw other (or_else-none _)
  ]

  last_blob-exported :
      (key : String) (m : List (String × List Byte))
      → Keys m
      → All (λ (b : String × List Byte). IsSmall b.0 b.1) m
      → All (λ (b : String × List Byte). IsPlainKey b.0 b.1) m
      → last_blob key (exported m) ≡ (find key m >>= nonempty)
  unfolding exported filter_map last_blob
  last_blob-exported key [] d s p = refl
  last_blob-exported key ((k, bytes) ∷ m) d s p =
      let (note_id, name, free, hn, hm, e) = p.0 in
      rw (exported-cons k note_id name bytes m (split_plain k bytes p.0)) (
        rw (read_attachment-attachment_json note_id name bytes) (
          rw
            (
              offers-tagged key k note_id name bytes hn hm e s.0,
              last_blob-exported key m d.1 s.1 p.1,
            )
            (merge_lem key k bytes m d.0)))

  IsPlainEntry-tagged :
      (note_id name : String) (bytes : List Byte)
      → NulFree note_id
      → IsPlainEntry (tagged note_id name (nonempty bytes))
  IsPlainEntry-tagged note_id name [] h = tt
  IsPlainEntry-tagged note_id name (b ∷ bytes) h = h

  IsPlainEntry-exported :
      (m : List (String × List Byte))
      → All (λ (b : String × List Byte). IsPlainKey b.0 b.1) m
      → All (λ att. IsPlainEntry (read_attachment att)) (exported m)
  unfolding exported filter_map
  IsPlainEntry-exported [] p = tt
  IsPlainEntry-exported ((k, bytes) ∷ m) p =
      let (note_id, name, free, hn, hm, e) = p.0 in
      rw (exported-cons k note_id name bytes m (split_plain k bytes p.0)) (
        rw (read_attachment-attachment_json note_id name bytes)
            (IsPlainEntry-tagged note_id name bytes free),
        IsPlainEntry-exported m p.1,
      )

  -- Of a key, an exported batch has what a sound store has under it, unless that is empty.
  pub last_blob-export_batch :
      (w : WireStore Value) (a : WireAttachmentStore) (key : String)
      → IsSound a
      → last_blob key (attachments_of (export_batch w a)) ≡ (blob a key >>= nonempty)
  unfolding exported AttachmentStore.iter HashMap.get
  last_blob-export_batch w a key s =
      rw (attachments_of-export_batch w a)
        (last_blob-exported key a.blobs.entries s.distinct.keys s.small.all s.plain.all)

  pub IsPlainEntry-export_batch :
      (w : WireStore Value) (a : WireAttachmentStore)
      → IsSound a
      → All (λ att. IsPlainEntry (read_attachment att)) (attachments_of (export_batch w a))
  unfolding exported AttachmentStore.iter
  IsPlainEntry-export_batch w a s =
      rw (attachments_of-export_batch w a) (IsPlainEntry-exported a.blobs.entries s.plain.all)
