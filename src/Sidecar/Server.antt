-- ===== src/Sidecar/Server.antt =====
-- sidecar.rs: bind_listener, run and run_until_shutdown; main.rs, once the log and the runtime of tokio
-- are there.
use mesh_pad.Base.{
  false, subst, sym, ◌⊎◌, inl, inr, [], ℕ, ◌≡◌, ◌≢◌, ◌<◌, refl, String, Option, none, some, List,
  ◌∷◌, ◌++◌, All, Result, ok, err,
}
use mesh_pad.Base.Text.Decimal.{decimal}
use mesh_pad.Base.Try.{◌>>=◌}
use mesh_pad.External.Json.{Json}
use mesh_pad.External.Libp2p.{Libp2p}
use mesh_pad.External.Net.{Net}
use mesh_pad.WireStore
use mesh_pad.AttachmentStore
use mesh_pad.Sidecar.{SidecarState, new_sidecar_state}
use mesh_pad.Sidecar.Ports.{resolve_http_port, resolve_http_port_lem}

module _ ⦃json : Json⦄ ⦃libp2p : Libp2p json.Value⦄ ⦃net : Net⦄ where
  abbrev pub loopback : String
  loopback = "127.0.0.1"

  unfoldable pub bind_listener : ℕ → Result net.TcpListener String
  bind_listener http_port = net.bind loopback http_port

  abbrev pub serve_bound : Result (net.TcpListener × ℕ) String → Option (Result Unit String)
  serve_bound (ok (listener, port)) = net.serve listener (new_sidecar_state port)
  serve_bound (err e) = some (err e)

  -- None where the server never ends. run_until_shutdown is the same but for what ends its server.
  unfoldable pub run : ℕ → Option (Result Unit String)
  unfolding bind_listener new_sidecar_state
  run http_port =
      serve_bound
        (do listener ← bind_listener http_port; port ← net.local_port listener; ok (listener, port))

  -- the exit code of the process, once it has ended
  abbrev pub exit_code : Option (Result Unit String) → Option ℕ
  exit_code none = none
  exit_code (some (ok _)) = some 0
  exit_code (some (err e)) = some 1

  -- main, with the variable MESHPAD_LIBP2P_SIDECAR_PORT and the arguments
  unfoldable pub main : Option String → List String → Option ℕ
  unfolding run resolve_http_port
  main variable args = exit_code (run (resolve_http_port variable args))

  -- A sidecar that was never started, on a port.
  abbrev pub unstarted : ℕ → SidecarState
  unstarted port = record {
    inner = record { peer_id = none; display_name = "MeshPad"; running = false; p2p = none };
    wire = WireStore.empty_store;
    attachments = AttachmentStore.empty_store;
    events = [];
    http_port = port;
  }

  -- How a server ends, and the exit code for it: none while it serves for ever.
  abbrev pub Exits : Option (Result Unit String) → Option ℕ → Type 0
  Exits none code = code ≡ none
  Exits (some (ok _)) code = code ≡ some 0
  Exits (some (err e)) code = code ≡ some 1

  -- A process on a port: its bind fails, or it serves there.
  abbrev pub RunsAt : ℕ → Option ℕ → Type 0
  RunsAt port code =
      ((e : String) × (net.bind "127.0.0.1" port ≡ err e) × (code ≡ some 1))
      ⊎ ((l : net.TcpListener) × (net.bind "127.0.0.1" port ≡ ok l)
          × Exits (net.serve l (unstarted port)) code)

  exit_code-Exits : (end : Option (Result Unit String)) → Exits end (exit_code end)
  exit_code-Exits none = refl
  exit_code-Exits (some (ok _)) = refl
  exit_code-Exits (some (err e)) = refl

  run-RunsAt :
      (port : ℕ) (bound : Result net.TcpListener String)
      → port ≢ 0
      → net.bind "127.0.0.1" port ≡ bound
      → RunsAt port (exit_code (run port))
  unfolding run bind_listener new_sidecar_state
  run-RunsAt port (err m) h e = rw e (inl (m, refl, refl))
  run-RunsAt port (ok l) h e = inr (
    l,
    e,
    rw e (
        rw (net.local_port-bind "127.0.0.1" port l h e)
          (exit_code-Exits (net.serve l (unstarted port)))),
  )

  -- The process, given a port other than 0 by the variable, or, where that is not set, by the first
  -- `--port` of its arguments, binds that port on 127.0.0.1 alone and serves there a new state, which
  -- is not started, has no notes, attachments and events, and reports that port. It exits with 1
  -- where the bind fails or the server ends with an error, with 0 where the server ends well, and
  -- not at all while the server goes on.
  pub main_lem :
      (port : ℕ) (args : List String) (program : String) (before after : List String)
      → port < 65536
      → port ≢ 0
      → All (λ a. a ≢ "--port") before
      → RunsAt port (main (some (decimal port)) args)
        × RunsAt port (main none (program ∷ (before ++ "--port" ∷ decimal port ∷ after)))
  unfolding main
  main_lem port args program before after fits h plain =
      let (variable, argument, _) =
        resolve_http_port_lem port args program before after fits plain in
      let at : RunsAt port (exit_code (run port)) =
        run-RunsAt port (net.bind "127.0.0.1" port) h refl in
      (
        subst (λ p. RunsAt port (exit_code (run p))) (sym variable) at,
        subst (λ p. RunsAt port (exit_code (run p))) (sym argument) at,
      )
