-- ===== src/WireStore/Import.antt =====
-- `WireStore::import_snapshots` and its loop, as one update of the store by id.
use mesh_pad.Base.{
  ℕ, ◌+◌, ◌<◌, ◌≡◌, refl, sym, ◌∙◌, String, Option, none, List, [], ◌∷◌, if◌then◌else◌, or_else,
  or_else_assoc, is_some, arith, add_u32-eq, u32_mod, string_key,
}
use mesh_pad.External.Json.{Json}
use mesh_pad.WireStore.{
  WireStore, note_id_from_snapshot, upsert, count_if, import_loop, import_snapshots,
}
use mesh_pad.WireStore.Upsert.{note, offers, IsKeyed, note-upsert, upsert_accepts, upsert-IsKeyed}

module _ ⦃json : Json⦄ where
  open json use {Value}

  -- The last of the snapshots that has the id.
  unfoldable pub last_with : String → List Value → Option Value
  last_with id [] = none
  last_with id (s ∷ ss) = or_else (last_with id ss) (offers s id)

  -- How many of the snapshots have an id.
  unfoldable pub identified : List Value → ℕ
  identified [] = 0
  identified (s ∷ ss) = (if is_some (note_id_from_snapshot s) then 1 else 0) + identified ss

  pub note-import_loop :
      (ss : List Value) (count : ℕ) (w : WireStore Value) (id : String)
      → note (import_loop count ss w).1 id ≡ or_else (last_with id ss) (note w id)
  unfolding import_loop last_with
  note-import_loop [] count w id = refl
  note-import_loop (s ∷ ss) count w id =
      note-import_loop ss (count_if (upsert w s).0 count) (upsert w s).1 id
      ∙ (rw (note-upsert w s id) (sym (or_else_assoc (last_with id ss) _ _)))

  pub import_loop-IsKeyed :
      (ss : List Value) (count : ℕ) (w : WireStore Value)
      → IsKeyed w
      → IsKeyed (import_loop count ss w).1
  unfolding import_loop
  import_loop-IsKeyed [] count w k = k
  import_loop-IsKeyed (s ∷ ss) count w k =
      import_loop-IsKeyed ss (count_if (upsert w s).0 count) (upsert w s).1 (upsert-IsKeyed w s k)

  pub import_snapshots-IsKeyed :
      (w : WireStore Value) (ss : List Value) → IsKeyed w → IsKeyed (import_snapshots w ss).1
  unfolding import_snapshots
  import_snapshots-IsKeyed w ss k = import_loop-IsKeyed ss 0 w k

  pub count-import_loop :
      (ss : List Value) (count : ℕ) (w : WireStore Value)
      → count + identified ss < u32_mod
      → (import_loop count ss w).0 ≡ count + identified ss
  unfolding import_loop identified count_if
  count-import_loop [] count w h = omega arith
  count-import_loop (s ∷ ss) count w h = ground (
    arith,
    upsert_accepts w s,
    add_u32-eq count 1,
    count-import_loop ss (count_if (upsert w s).0 count) (upsert w s).1,
  )

  -- After an import of snapshots, fewer than 2^32 of them with an id, into a store whose notes
  -- stand under their own ids, each id has the last snapshot that came for it, and else the note
  -- that it had; the result counts the snapshots that have an id; the notes stand under their own
  -- ids again.
  pub import_snapshots_lem :
      (w : WireStore Value) (ss : List Value)
      → IsKeyed w
      → identified ss < u32_mod
      → ((id : String) → note (import_snapshots w ss).1 id ≡ or_else (last_with id ss) (note w id))
        × ((import_snapshots w ss).0 ≡ identified ss)
        × IsKeyed (import_snapshots w ss).1
  unfolding import_snapshots
  import_snapshots_lem w ss k h = (
    note-import_loop ss 0 w,
    omega (arith, count-import_loop ss 0 w (omega arith)),
    import_loop-IsKeyed ss 0 w k,
  )
