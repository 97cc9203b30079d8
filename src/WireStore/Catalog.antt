-- ===== src/WireStore/Catalog.antt =====
-- Replication by catalog and pull: the ids of a catalog, the pull of those, and the import.
use mesh_pad.Base.{
  ◌≡◌, refl, ap, String, Option, none, some, List, [], ◌∷◌, map, filter_map, ◌>>=◌, string_key,
  or_else, arith, All, same_self, same_ne, ◌≢◌, subst, ◌∙◌, Bool-cases, inl, inr, or_else-none,
}
use text.Mathlib.TextEquality.{eq_iff}
use mesh_pad.External.Json.{Json}
use mesh_pad.HashMap
use mesh_pad.HashMap.{find}
use mesh_pad.HashMap.Distinct.{Keys}
use mesh_pad.WireStore.{WireStore, head, catalog_heads, all_snapshots, pull, import_snapshots}
use mesh_pad.WireStore.Upsert.{note, offers, IsOwnKey, IsKeyed}
use mesh_pad.WireStore.Import.{last_with, note-import_loop}

module _ ⦃json : Json⦄ where
  open json use {Value, get, as_str, get-object, as_str-string}

  -- `heads.iter().filter_map(|h| h.get("id").and_then(|v| v.as_str()))`
  abbrev pub id_of_head : Value → Option String
  id_of_head h = do v ← get h "id"; as_str v

  unfoldable pub ids_of_heads : List Value → List String
  ids_of_heads heads = filter_map id_of_head heads

  abbrev keys : List (String × Value) → List String
  keys = map (λ (b : String × Value). b.0)

  abbrev values : List (String × Value) → List Value
  values = map (λ (b : String × Value). b.1)

  id_of_head-head : (b : String × Value) → id_of_head (head b) ≡ some b.0
  id_of_head-head b = rw (get-object, as_str-string)

  ids-heads : (m : List (String × Value)) → filter_map id_of_head (map head m) ≡ keys m
  unfolding filter_map
  ids-heads [] = refl
  ids-heads (b ∷ m) = ground (arith, id_of_head-head b, ids-heads m)

  filter_map-find_cons :
      (k : String) (v : Value) (ids : List String) (m : List (String × Value))
      → All (λ i. k ≢ i) ids
      → filter_map (λ i. find i ((k, v) ∷ m)) ids ≡ filter_map (λ i. find i m) ids
  unfolding filter_map
  filter_map-find_cons k v [] m h = refl
  filter_map-find_cons k v (i ∷ ids) m h =
      ground (arith, same_ne k i h.0, filter_map-find_cons k v ids m)

  fresh_keys :
      (k : String) (m : List (String × Value)) → find k m ≡ none → All (λ i. k ≢ i) (keys m)
  fresh_keys k [] h = tt
  fresh_keys k ((j, v) ∷ m) h = (λ e. ground (arith, eq_iff j k), fresh_keys k m (ground arith))

  pull-keys : (m : List (String × Value)) → Keys m → filter_map (λ i. find i m) (keys m) ≡ values m
  unfolding filter_map
  pull-keys [] d = refl
  pull-keys ((k, v) ∷ m) d = ground (
    arith,
    same_self k,
    filter_map-find_cons k v (keys m) m (fresh_keys k m d.0),
    pull-keys m d.1,
  )

  last_with-absent :
      (id : String) (m : List (String × Value))
      → All (λ (b : String × Value). IsOwnKey b.0 b.1) m
      → find id m ≡ none
      → last_with id (values m) ≡ none
  unfolding last_with offers
  last_with-absent id [] k h = refl
  last_with-absent id ((j, v) ∷ m) k h = ground (arith, k.0, eq_iff j id, last_with-absent id m)

  last_with-values :
      (id : String) (m : List (String × Value))
      → Keys m
      → All (λ (b : String × Value). IsOwnKey b.0 b.1) m
      → last_with id (values m) ≡ find id m
  unfolding last_with offers
  last_with-values id [] d k = refl
  last_with-values id ((j, v) ∷ m) d k = elim (Bool-cases (string_key.same j id)) [
    | inl same ↦
        let e : j ≡ id = (eq_iff j id).0 same in
        rw (k.0, same) (rw (last_with-absent id m k.1 (subst (λ i. find i m ≡ none) e d.0)))
    | inr other ↦ rw (k.0, other) (or_else-none _ ∙ last_with-values id m d.1 k.1)
  ]

  -- All snapshots of a keyed store have, as their last one with an id, the note under that id.
  pub last_with-all_snapshots :
      (w : WireStore Value) (id : String) → IsKeyed w → last_with id (all_snapshots w) ≡ note w id
  unfolding all_snapshots HashMap.get
  last_with-all_snapshots w id k = last_with-values id w.notes.entries k.distinct.keys k.own_key.all

  -- To pull the ids that a store's own catalog lists is to pull every snapshot.
  pub pull-ids_of_heads :
      (w : WireStore Value) → IsKeyed w → pull w (ids_of_heads (catalog_heads w)) ≡ all_snapshots w
  unfolding ids_of_heads catalog_heads pull HashMap.get all_snapshots
  pull-ids_of_heads w k =
      rw ids-heads (pull_all w.notes.entries (pull-keys w.notes.entries k.distinct.keys))
    where
      pull_all :
          (m : List (String × Value))
          → filter_map (λ i. find i m) (keys m) ≡ values m
          → pull (record { notes = record { entries = m } }) (keys m) ≡ values m
      pull_all [] h = refl
      pull_all (b ∷ m) h = h

  -- For a remote store whose notes stand under their own ids: when a local store imports what the
  -- remote one gives for the ids of its catalog, it has the remote note of each id that the remote
  -- store has, and its own note of every other id.
  pub import-pull-catalog :
      (remote local : WireStore Value) (id : String)
      → IsKeyed remote
      → note (import_snapshots local (pull remote (ids_of_heads (catalog_heads remote)))).1 id
        ≡ or_else (note remote id) (note local id)
  unfolding import_snapshots
  import-pull-catalog remote local id k = rw (pull-ids_of_heads remote k) (
      note-import_loop (all_snapshots remote) 0 local id
      ∙ ap (λ o. or_else o (note local id)) (last_with-all_snapshots remote id k))
