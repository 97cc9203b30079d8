-- ===== src/WireStore/Upsert.antt =====
-- `WireStore::upsert`: which id a snapshot is stored under, and the invariant of the store.
use mesh_pad.Base.{
  ◌≡◌, Bool, false, String, Option, none, some, ◌==◌, string_key, if◌then◌else◌, or_else, is_some,
  arith, Option-cases, inl, inr,
}
use mesh_pad.External.Json.{Json}
use mesh_pad.HashMap
use mesh_pad.HashMap.{HashMap}
use mesh_pad.HashMap.Laws.{get-insert}
use mesh_pad.HashMap.Distinct.{Distinct, Distinct-empty, insert-Distinct}
use mesh_pad.HashMap.Entries.{Every, Every-empty, insert-Every}
use mesh_pad.WireStore.{WireStore, empty_store, note_id_from_snapshot, upsert}

module _ ⦃json : Json⦄ where
  open json use {Value}

  -- The note that a store has under an id.
  abbrev pub note : WireStore Value → String → Option Value
  note w id = HashMap.get w.notes id

  abbrev has_id : Option String → String → Bool
  has_id none id = false
  has_id (some i) id = i == id

  -- What a snapshot is for an id: itself, if its `meta.id` is that id.
  unfoldable pub offers : Value → String → Option Value
  offers snapshot id = if has_id (note_id_from_snapshot snapshot) id then some snapshot else none

  abbrev pub IsOwnKey : String → Value → Type 0
  IsOwnKey id snapshot = note_id_from_snapshot snapshot ≡ some id

  -- Each id stands once, and each snapshot stands under its own `meta.id`.
  pub record IsKeyed (w : WireStore Value) : Type 0 where
    pub distinct : Distinct w.notes
    pub own_key : Every IsOwnKey w.notes

  pub IsKeyed-empty : IsKeyed empty_store
  IsKeyed-empty = record { distinct = Distinct-empty; own_key = Every-empty IsOwnKey }

  pub note-upsert :
      (w : WireStore Value) (snapshot : Value) (id : String)
      → note (upsert w snapshot).1 id ≡ or_else (offers snapshot id) (note w id)
  unfolding upsert offers
  note-upsert w snapshot id = elim (Option-cases (note_id_from_snapshot snapshot)) [
    | inl e ↦ rw e
    | inr (i, e) ↦ rw e (rw get-insert (ground arith))
  ]

  pub upsert_accepts :
      (w : WireStore Value) (snapshot : Value)
      → (upsert w snapshot).0 ≡ is_some (note_id_from_snapshot snapshot)
  unfolding upsert
  upsert_accepts w snapshot = ground arith

  pub upsert-IsKeyed :
      (w : WireStore Value) (snapshot : Value) → IsKeyed w → IsKeyed (upsert w snapshot).1
  unfolding upsert
  upsert-IsKeyed w snapshot k = elim (Option-cases (note_id_from_snapshot snapshot)) [
    | inl e ↦ rw e k
    | inr (i, e) ↦ rw e (record {
      distinct = insert-Distinct w.notes i snapshot k.distinct;
      own_key = insert-Every IsOwnKey w.notes i snapshot e k.own_key;
    })
  ]
