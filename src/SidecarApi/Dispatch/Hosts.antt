-- ===== src/SidecarApi/Dispatch/Hosts.antt =====
-- A sync by address ends where the host at the address answers.
use mesh_pad.Base.{
  ℕ, true, false, List, [], ◌∷◌, ltb, Bool-cases, ◌≢◌, refl, String, Option, none, some, Result, ok,
  err, inl, inr,
}
use mesh_pad.Base.Text.{concat}
use mesh_pad.External.Json.{Json}
use mesh_pad.External.Base64.{Base64}
use mesh_pad.External.Libp2p.{Libp2p}
use mesh_pad.External.Http.{Http, Reply, silent, failed, answered}
use mesh_pad.External.Serde.{Serde}
use mesh_pad.External.Tokio.{Tokio}
use mesh_pad.Sidecar.{System, Outcome, Async, done, waiting}
use mesh_pad.SidecarApi.Sync.{await_host, http_import, http_push, stores_of, sync_http}
use mesh_pad.Sidecar.WireBase.{normalize_wire_base}
use mesh_pad.Sidecar.Remote.{
  body_of, import_notes, pull_notes, pull_catalog, read_values, after_batch_import, import_reply,
  import_wire_from_http, push_wire_batch_to_http, pushed_count,
}
use mesh_pad.WireBatch.Exchange.{Stores}
use mesh_pad.WireStore.Catalog.{ids_of_heads}

module _ ⦃json : Json⦄ ⦃base64 : Base64⦄ ⦃libp2p : Libp2p json.Value⦄ ⦃http : Http json.Value⦄
    ⦃serde : Serde⦄ ⦃tokio : Tokio⦄ where
  open json use {Value}
  open http use {World, get, post}

  abbrev pub IsDone : {A : Type 0} → Outcome A → Type 0
  IsDone (done a s) = Unit
  IsDone (waiting s) = ⊥

  pub IsDone-bind :
      {A B : Type 0} (m : Outcome A) (f : A → Async B)
      → IsDone m
      → ((a : A) (s : System) → IsDone (f a s))
      → IsDone (elim m [ done a s ↦ f a s | waiting s ↦ waiting s ])
  IsDone-bind (done a s) f h k = k a s
  IsDone-bind (waiting s) f h k = absurd h

  -- The host at an address comes to an answer, or to an error, for each of the four requests of a
  -- sync.
  pub record Responds (base : String) : Type 0 where
    pub batch : (w : World) → (get w (concat base "v1/wire/batch/export")).0 ≢ silent
    pub catalog : (w : World) → (get w (concat base "v1/wire/catalog")).0 ≢ silent
    pub notes : (w : World) (v : Value) → (post w (concat base "v1/wire/pull") v).0 ≢ silent
    pub import :
        (w : World) (v : Value) → (post w (concat base "v1/wire/batch/import") v).0 ≢ silent

  abbrev IsEnded : {A : Type 0} → Option A → Type 0
  IsEnded none = ⊥
  IsEnded (some a) = Unit

  body_of-IsEnded : (reply : Reply Value) → reply ≢ silent → IsEnded (body_of reply)
  body_of-IsEnded silent h = absurd (h refl)
  body_of-IsEnded (failed e) h = tt
  body_of-IsEnded (answered success body) h = tt

  module _ (base : String) (responds : Responds base) where
    import_notes-IsEnded :
        (t : Stores) (body : Option (Result Value String)) (w : World)
        → IsEnded body
        → IsEnded (import_notes t body w).result
    import_notes-IsEnded t none w h = h
    import_notes-IsEnded t (some (ok pull)) w h = tt
    import_notes-IsEnded t (some (err e)) w h = tt

    pull_notes-IsEnded :
        (t : Stores) (ids : List String) (w : World) → IsEnded (pull_notes base t ids w).result
    pull_notes-IsEnded t [] w = tt
    pull_notes-IsEnded t (id ∷ ids) w =
        import_notes-IsEnded t _ _ (body_of-IsEnded _ (responds.notes w _))

    values-IsEnded :
        (t : Stores) (values : Result (List Value) String) (w : World)
        → IsEnded (pull_catalog base t (some values) w).result
    values-IsEnded t (ok catalog) w = pull_notes-IsEnded t (ids_of_heads catalog) w
    values-IsEnded t (err e) w = tt

    pull_catalog-IsEnded :
        (t : Stores) (body : Option (Result Value String)) (w : World)
        → IsEnded body
        → IsEnded (pull_catalog base t (read_values body) w).result
    pull_catalog-IsEnded t none w h = h
    pull_catalog-IsEnded t (some (err e)) w h = tt
    pull_catalog-IsEnded t (some (ok body)) w h = values-IsEnded t (serde.values body) w

    after_batch_import-IsEnded :
        (imported : ℕ) (t : Stores) (w : World)
        → IsEnded (after_batch_import base (some imported) t w).result
    after_batch_import-IsEnded imported t w = elim (Bool-cases (ltb 0 imported)) [
      | inl counted ↦ rw counted tt
      | inr nothing ↦
          rw nothing (pull_catalog-IsEnded t _ _ (body_of-IsEnded _ (responds.catalog w)))
    ]

    import_reply-IsEnded :
        (reply : Reply Value) (t : Stores) (w : World)
        → reply ≢ silent
        → IsEnded
            (after_batch_import base (import_reply reply t).0 (import_reply reply t).1 w).result
    import_reply-IsEnded silent t w h = absurd (h refl)
    import_reply-IsEnded (failed e) t w h = after_batch_import-IsEnded 0 t w
    import_reply-IsEnded (answered false body) t w h = after_batch_import-IsEnded 0 t w
    import_reply-IsEnded (answered true (err e)) t w h = after_batch_import-IsEnded 0 t w
    import_reply-IsEnded (answered true (ok batch)) t w h = after_batch_import-IsEnded _ _ w

  pushed_count-IsEnded :
      (body : Option (Result Value String)) → IsEnded body → IsEnded (pushed_count body)
  pushed_count-IsEnded none h = h
  pushed_count-IsEnded (some (err e)) h = tt
  pushed_count-IsEnded (some (ok v)) h = tt

  await_host-IsDone : {A : Type 0} (r : Option A) (s : System) → IsEnded r → IsDone (await_host r s)
  await_host-IsDone none s h = h
  await_host-IsDone (some a) s h = tt

  pub sync_http-IsDone :
      (base : String) (s : System) → Responds (normalize_wire_base base) → IsDone (sync_http base s)
  unfolding sync_http import_wire_from_http push_wire_batch_to_http
  sync_http-IsDone base s responds =
      IsDone-bind (http_import base s) _
        (await_host-IsDone _ _ (
          import_reply-IsEnded (normalize_wire_base base) responds _ (stores_of s.state) _
            (responds.batch s.world)))
        (λ imported s'.
          IsDone-bind (http_push base s') _
            (await_host-IsDone _ _
              (pushed_count-IsEnded _ (body_of-IsEnded _ (responds.import s'.world _))))
            (λ pushed s''. tt))
