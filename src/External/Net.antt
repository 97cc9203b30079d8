-- ===== src/External/Net.antt =====
-- tokio and axum: a listener on an address, and the server on it.
use mesh_pad.Base.{ℕ, ◌≡◌, ◌≢◌, String, Option, Result, ok}
use mesh_pad.Sidecar.{SidecarState}
use mesh_pad.External.Json.{Json}
use mesh_pad.External.Libp2p.{Libp2p}

pub record Net ⦃json : Json⦄ ⦃libp2p : Libp2p json.Value⦄ : Type 1 where
  pub TcpListener : Type 0
  -- the host, and the port, 0 for any
  pub bind : String → ℕ → Result TcpListener String
  pub local_port : TcpListener → Result ℕ String
  -- what the server of build_router on a new state comes to: none where it serves for ever
  pub serve : TcpListener → SidecarState → Option (Result Unit String)
  pub local_port-bind :
      (host : String) (port : ℕ) (l : TcpListener)
      → port ≢ 0
      → bind host port ≡ ok l
      → local_port l ≡ ok port
