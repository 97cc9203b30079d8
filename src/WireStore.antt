-- ===== src/WireStore.antt =====
-- wire_store.rs: the note snapshots in memory, by note id.
pub mod Upsert
pub mod Import
pub mod Catalog
use mesh_pad.Base.{
  ℕ, Bool, true, false, String, Option, none, some, List, [], ◌∷◌, map, filter_map, ◌>>=◌,
  if◌then◌else◌, unwrap_or, add_u32, string_key,
}
use mesh_pad.External.Json.{Json}
use mesh_pad.HashMap
use mesh_pad.HashMap.{HashMap}

pub record WireStore (Value : Type 0) : Type 0 where
  pub notes : HashMap String Value

abbrev pub empty_store : {Value : Type 0} → WireStore Value
empty_store = record { notes = HashMap.empty }

-- WireStore::len
unfoldable pub len : {Value : Type 0} → WireStore Value → ℕ
len w = HashMap.len w.notes

-- WireStore::all_snapshots
unfoldable pub all_snapshots : {Value : Type 0} → WireStore Value → List Value
all_snapshots w = HashMap.values w.notes

-- WireStore::pull
unfoldable pub pull : {Value : Type 0} → WireStore Value → List String → List Value
pull w [] = HashMap.values w.notes
pull w (id ∷ ids) = filter_map (λ i. HashMap.get w.notes i) (id ∷ ids)

-- `if accepted { count += 1; }`
unfoldable pub count_if : Bool → ℕ → ℕ
unfolding add_u32
count_if accepted count = if accepted then add_u32 count 1 else count

module _ ⦃json : Json⦄ where
  open json use {Value, null, bool, string, object, get, as_str}

  unfoldable pub note_id_from_snapshot : Value → Option String
  note_id_from_snapshot snapshot = do meta ← get snapshot "meta"; id ← get meta "id"; as_str id

  abbrev upsert_at : WireStore Value → Value → Option String → Bool × WireStore Value
  upsert_at w snapshot none = (false, w)
  upsert_at w snapshot (some id) = (true, record { notes = HashMap.insert w.notes id snapshot })

  -- WireStore::upsert
  unfoldable pub upsert : WireStore Value → Value → Bool × WireStore Value
  upsert w snapshot = upsert_at w snapshot (note_id_from_snapshot snapshot)

  -- the head of one note
  abbrev pub head : String × Value → Value
  head (id, snapshot) =
      let meta = unwrap_or (get snapshot "meta") (object []) in
      object (
        ("id", string id)
        ∷ ("updated_at", unwrap_or (get meta "updated_at") null)
        ∷ ("deleted", unwrap_or (get meta "deleted") (bool false))
        ∷ [])

  -- WireStore::catalog_heads
  unfoldable pub catalog_heads : WireStore Value → List Value
  catalog_heads w = map head w.notes.entries

  -- the loop of import_snapshots, and of the notes in import_batch
  unfoldable pub import_loop : ℕ → List Value → WireStore Value → ℕ × WireStore Value
  import_loop count [] w = (count, w)
  import_loop count (snapshot ∷ rest) w =
      let (accepted, w') = upsert w snapshot in import_loop (count_if accepted count) rest w'

  -- WireStore::import_snapshots
  unfoldable pub import_snapshots : WireStore Value → List Value → ℕ × WireStore Value
  unfolding import_loop
  import_snapshots w snapshots = import_loop 0 snapshots w
