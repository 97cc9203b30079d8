-- ===== src/Sidecar/Remote.antt =====
-- sidecar.rs: import_wire_from_http and push_wire_batch_to_http. The two stores are locked one
-- after the other in the source, and are one record here. A result is `none` where the function waits
-- for ever for a host that does not answer.
use mesh_pad.Base.{
  ℕ, ◌%◌, String, true, false, Option, none, some, List, [], ◌∷◌, map, ◌>>=◌, Result, ok, err, ltb,
  unwrap_or, u32_mod, if◌then◌else◌,
}
use mesh_pad.Base.Text.{concat}
use mesh_pad.External.Json.{Json}
use mesh_pad.External.Base64.{Base64}
use mesh_pad.External.Http.{Http, Reply, silent, failed, answered}
use mesh_pad.External.Serde.{Serde}
use mesh_pad.WireStore.{import_snapshots}
use mesh_pad.WireStore.Catalog.{ids_of_heads}
use mesh_pad.WireBatch.{import_batch, export_batch, list_field}
use mesh_pad.WireBatch.Exchange.{Stores}
use mesh_pad.Sidecar.WireBase.{normalize_wire_base}

module _ ⦃json : Json⦄ ⦃base64 : Base64⦄ ⦃serde : Serde⦄ ⦃http : Http json.Value⦄ where
  open json use {Value, string, array, object, get, as_u64}
  open http use {World}

  -- `.send().await.map_err(…)?.json().await.map_err(…)?`
  abbrev pub body_of : Reply Value → Option (Result Value String)
  body_of silent = none
  body_of (failed e) = some (err e)
  body_of (answered success body) = some body

  -- what came of an import: the count or the error, the stores, and the world after it
  pub record Fetched : Type 0 where
    pub result : Option (Result ℕ String)
    pub stores : Stores
    pub world : World

  abbrev pub ended : Option (Result ℕ String) → Stores → World → Fetched
  ended result s w = record { result = result; stores = s; world = w }

  -- the import of the exported batch; a count of zero falls through to the catalog
  abbrev pub import_reply : Reply Value → Stores → Option ℕ × Stores
  import_reply silent s = (none, s)
  import_reply (failed e) s = (some 0, s)
  import_reply (answered false body) s = (some 0, s)
  import_reply (answered true (err e)) s = (some 0, s)
  import_reply (answered true (ok batch)) s =
      let r = import_batch batch s.wire s.attachments in
      (some r.count, record { wire = r.wire; attachments = r.attachments })

  abbrev pub import_notes : Stores → Option (Result Value String) → World → Fetched
  import_notes s none w = ended none s w
  import_notes s (some (err e)) w = ended (some (err e)) s w
  import_notes s (some (ok pull)) w =
      let (imported, wire') = import_snapshots s.wire (list_field pull "notes") in
      ended (some (ok imported)) (record s { wire = wire' }) w

  abbrev pub pull_notes : String → Stores → List String → World → Fetched
  pull_notes base s [] w = ended (some (ok 0)) s w
  pull_notes base s (id ∷ ids) w =
      let (reply, w') =
        http.post w (concat base "v1/wire/pull")
          (object (("note_ids", array (map string (id ∷ ids))) ∷ [])) in
      import_notes s (body_of reply) w'

  abbrev pub read_values : Option (Result Value String) → Option (Result (List Value) String)
  read_values none = none
  read_values (some (err e)) = some (err e)
  read_values (some (ok body)) = some (serde.values body)

  abbrev pub pull_catalog : String → Stores → Option (Result (List Value) String) → World → Fetched
  pull_catalog base s none w = ended none s w
  pull_catalog base s (some (err e)) w = ended (some (err e)) s w
  pull_catalog base s (some (ok catalog)) w = pull_notes base s (ids_of_heads catalog) w

  abbrev pub fetch_catalog : String → Stores → World → Fetched
  fetch_catalog base s w =
      let (reply, w') = http.get w (concat base "v1/wire/catalog") in
      pull_catalog base s (read_values (body_of reply)) w'

  -- after the import of the batch, with what it counted
  abbrev pub after_batch_import : String → Option ℕ → Stores → World → Fetched
  after_batch_import base none s w = ended none s w
  after_batch_import base (some imported) s w =
      if ltb 0 imported then ended (some (ok imported)) s w else fetch_catalog base s w

  unfoldable pub import_wire_from_http : String → Stores → World → Fetched
  unfolding normalize_wire_base
  import_wire_from_http base s w =
      let base' = normalize_wire_base base in
      let (reply, w') = http.get w (concat base' "v1/wire/batch/export") in
      let (imported, s') = import_reply reply s in after_batch_import base' imported s' w'

  -- `resp.get("imported").and_then(|v| v.as_u64()).unwrap_or(0) as u32`
  abbrev pub pushed_count : Option (Result Value String) → Option (Result ℕ String)
  pushed_count none = none
  pushed_count (some (err e)) = some (err e)
  pushed_count (some (ok resp)) =
      some (ok (unwrap_or (do v ← get resp "imported"; as_u64 v) 0 % u32_mod))

  unfoldable pub push_wire_batch_to_http :
      String → Stores → World → Option (Result ℕ String) × World
  unfolding normalize_wire_base
  push_wire_batch_to_http base s w =
      let base' = normalize_wire_base base in
      let (reply, w') =
        http.post w (concat base' "v1/wire/batch/import") (export_batch s.wire s.attachments) in
      (pushed_count (body_of reply), w')
