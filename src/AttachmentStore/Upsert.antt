-- ===== src/AttachmentStore/Upsert.antt =====
-- `WireAttachmentStore::upsert` and `get`: what is accepted, and the invariants of the store.
use text.Mathlib.TextLemmas.{append_assoc}
use mesh_pad.Base.{
  ◌⊎◌, ◌≤◌, ◌≡◌, refl, ap, ap₂, ◌∙◌, Bool, true, false, not, ◌&&◌, String, Option, none, some, List,
  arith, ◌≢◌, ◌↔◌, ◌==◌, string_key, if◌then◌else◌, length, leb, Bool-cases, inl, inr, same_self,
  or_else,
}
use mesh_pad.Base.Text.{is_empty, concat}
use mesh_pad.External.Base64.{Byte}
use mesh_pad.HashMap
use mesh_pad.HashMap.Laws.{get-insert}
use mesh_pad.HashMap.Distinct.{Distinct, Distinct-empty, insert-Distinct}
use mesh_pad.HashMap.Entries.{Every, Every-empty, insert-Every}
use mesh_pad.AttachmentStore.{
  WireAttachmentStore, empty_store, max_attachment_bytes, attachment_key, upsert, get,
}
use mesh_pad.AttachmentStore.Keys.{NulFree, attachment_key_injective}

-- The blob that the store has under a key.
abbrev pub blob : WireAttachmentStore → String → Option (List Byte)
blob a key = HashMap.get a.blobs key

-- What `upsert` accepts.
abbrev pub admissible : String → String → List Byte → Bool
admissible note_id name bytes =
    not (is_empty note_id) && not (is_empty name) && leb (length bytes) max_attachment_bytes

pub is_empty_iff : (s : String) → (is_empty s ≡ true) ↔ (s ≡ "")
is_empty_iff String.[] = (λ _. refl, λ _. refl)
is_empty_iff (String.◌∷◌ c s) = (λ e. cc, λ e. ap is_empty e)

pub upsert_accepts :
    (a : WireAttachmentStore) (note_id name : String) (bytes : List Byte)
    → (upsert a note_id name bytes).0 ≡ admissible note_id name bytes
unfolding upsert
upsert_accepts a note_id name bytes = ground arith

upsert_lem :
    (a : WireAttachmentStore) (note_id name : String) (bytes : List Byte)
    → upsert a note_id name bytes ≡ (
        if admissible note_id name bytes
        then (true, record { blobs = HashMap.insert a.blobs (attachment_key note_id name) bytes })
        else (false, a))
unfolding upsert
upsert_lem a note_id name bytes = ground arith

accepts_iff :
    (a : WireAttachmentStore) (note_id name : String) (bytes : List Byte)
    → ((upsert a note_id name bytes).0 ≡ true)
      ↔ ((note_id ≢ "") × (name ≢ "") × (length bytes ≤ 16777216))
unfolding upsert
accepts_iff a note_id name bytes = ground (arith, is_empty_iff note_id, is_empty_iff name)

upsert_either :
    (a : WireAttachmentStore) (note_id name : String) (bytes : List Byte)
    → (((upsert a note_id name bytes).0 ≡ true)
        × (get (upsert a note_id name bytes).1 note_id name ≡ some bytes))
      ⊎ (((upsert a note_id name bytes).0 ≡ false) × ((upsert a note_id name bytes).1 ≡ a))
unfolding get
upsert_either a note_id name bytes = elim (Bool-cases (admissible note_id name bytes)) [
  | inl fits ↦
      let key = attachment_key note_id name in
      rw (upsert_lem, fits)
        (inl (refl, ground (arith, get-insert a.blobs key key bytes, same_self key)))
  | inr refused ↦ rw (upsert_lem, refused) (inr (refl, refl))
]

-- An upload is accepted exactly when its note id and its name are not empty and it has at most 16
-- MiB (16777216 bytes). After an accepted upload a read for its note id and name gives its bytes; a
-- refused one leaves the store as it was.
pub upsert_accepts_iff :
    (a : WireAttachmentStore) (note_id name : String) (bytes : List Byte)
    → (((upsert a note_id name bytes).0 ≡ true)
        ↔ ((note_id ≢ "") × (name ≢ "") × (length bytes ≤ 16777216)))
      × ((((upsert a note_id name bytes).0 ≡ true)
            × (get (upsert a note_id name bytes).1 note_id name ≡ some bytes))
          ⊎ (((upsert a note_id name bytes).0 ≡ false) × ((upsert a note_id name bytes).1 ≡ a)))
upsert_accepts_iff a note_id name bytes =
    (accepts_iff a note_id name bytes, upsert_either a note_id name bytes)

-- What an upload is for a key: its bytes, if it is accepted and the key is its own.
unfoldable pub offers_blob : String → String → List Byte → String → Option (List Byte)
offers_blob note_id name bytes key =
    if admissible note_id name bytes && attachment_key note_id name == key then some bytes else none

pub blob-upsert :
    (a : WireAttachmentStore) (note_id name : String) (bytes : List Byte) (key : String)
    → blob (upsert a note_id name bytes).1 key
      ≡ or_else (offers_blob note_id name bytes key) (blob a key)
unfolding upsert offers_blob
blob-upsert a note_id name bytes key =
    ground (arith, get-insert a.blobs (attachment_key note_id name) key bytes)

-- After an accepted upload of a note id without NUL, a read of a note id without NUL gives the bytes
-- for this note and name, and for any other what it gave before; after a refused one, the same as
-- before for all.
pub get-upsert :
    (a : WireAttachmentStore) (note_id name note_id' name' : String) (bytes : List Byte)
    → NulFree note_id
    → NulFree note_id'
    → get (upsert a note_id name bytes).1 note_id' name' ≡ (
        if (upsert a note_id name bytes).0 && note_id == note_id' && name == name'
        then some bytes
        else get a note_id' name')
unfolding get upsert
get-upsert a note_id name note_id' name' bytes h h' = ground (
  arith,
  get-insert a.blobs (attachment_key note_id name) (attachment_key note_id' name') bytes,
  string_key.same_iff (attachment_key note_id name) (attachment_key note_id' name'),
  string_key.same_iff note_id note_id',
  string_key.same_iff name name',
  attachment_key_injective note_id name note_id' name' h h',
  λ (p : note_id ≡ note_id') (q : name ≡ name'). ap₂ attachment_key p q,
)

attachment_key_nul :
    (x y name : String)
    → attachment_key (concat x (concat "\0" y)) name
      ≡ attachment_key x (concat y (concat "\0" name))
unfolding attachment_key
attachment_key_nul x y name = simp append_assoc

-- After an accepted upload for a note id with a NUL in it, a read for the part of that id before
-- the NUL, under the name that the rest of the id, a NUL and the uploaded name make, gives the
-- uploaded bytes: the two share a key.
pub get-upsert_nul :
    (a : WireAttachmentStore) (x y name : String) (bytes : List Byte)
    → (upsert a (concat x (concat "\0" y)) name bytes).0 ≡ true
    → get (upsert a (concat x (concat "\0" y)) name bytes).1 x (concat y (concat "\0" name))
      ≡ some bytes
unfolding get offers_blob
get-upsert_nul a x y name bytes accepted =
    blob-upsert a (concat x (concat "\0" y)) name bytes _
    ∙ ground (
      arith,
      upsert_accepts a (concat x (concat "\0" y)) name bytes,
      attachment_key_nul x y name,
      same_self (attachment_key x (concat y (concat "\0" name))),
    )

-- Each key stands once, no blob is larger than the limit, and each key is that of a note id without
-- NUL and a name, neither of them empty.
abbrev pub IsSmall : String → List Byte → Type 0
IsSmall key bytes = length bytes ≤ max_attachment_bytes

abbrev pub IsPlainKey : String → List Byte → Type 0
IsPlainKey key bytes =
    (note_id : String) × (name : String) × NulFree note_id
    × (is_empty note_id ≡ false)
    × (is_empty name ≡ false)
    × (key ≡ attachment_key note_id name)

pub record IsSound (a : WireAttachmentStore) : Type 0 where
  pub distinct : Distinct a.blobs
  pub small : Every IsSmall a.blobs
  pub plain : Every IsPlainKey a.blobs

pub IsSound-empty : IsSound empty_store
IsSound-empty = record {
  distinct = Distinct-empty;
  small = Every-empty IsSmall;
  plain = Every-empty IsPlainKey;
}

pub upsert-IsSound :
    (a : WireAttachmentStore) (note_id name : String) (bytes : List Byte)
    → NulFree note_id
    → IsSound a
    → IsSound (upsert a note_id name bytes).1
upsert-IsSound a note_id name bytes h s = elim (Bool-cases (admissible note_id name bytes)) [
  | inl fits ↦
      let key = attachment_key note_id name in
      rw (upsert_lem, fits)
        (record {
          distinct = insert-Distinct a.blobs key bytes s.distinct;
          small = insert-Every IsSmall a.blobs key bytes (ground arith) s.small;
          plain =
              insert-Every IsPlainKey a.blobs key bytes
                (note_id, name, h, ground arith, ground arith, refl) s.plain;
        })
  | inr refused ↦ rw (upsert_lem, refused) s
]
