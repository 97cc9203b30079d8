-- ===== src/Sidecar.antt =====
-- sidecar.rs: the state of the sidecar.
pub mod Requests
pub mod Controller
pub mod Ports
pub mod WireBase
pub mod Remote
pub mod Closed
pub mod EventStream
pub mod Server
use mesh_pad.Base.{ℕ, String, Bool, false, Option, none, List, [], Result}
use mesh_pad.External.Json.{Json}
use mesh_pad.External.Libp2p.{Libp2p}
use mesh_pad.External.Http.{Http}
use mesh_pad.WireStore
use mesh_pad.WireStore.{WireStore}
use mesh_pad.AttachmentStore
use mesh_pad.AttachmentStore.{WireAttachmentStore}
use mesh_pad.Events.{SidecarEvent}
use mesh_pad.P2p.{P2pConfig, Node}
use mesh_pad.Sidecar.Requests.{default_display_name}

-- DEFAULT_PORT, DEFAULT_LAN_HTTP_PORT and DEFAULT_TLS_PORT
abbrev pub default_port : ℕ
default_port = 45839

abbrev pub default_lan_port : ℕ
default_lan_port = 45839

abbrev pub default_tls_port : ℕ
default_tls_port = 45840

module _ ⦃json : Json⦄ ⦃libp2p : Libp2p json.Value⦄ where
  open json use {Value}

  -- A P2pController: the sending end of the channel to a loop, with the loop's variables, or none
  -- where the loop has ended. The stores and the broadcast in these variables are shared, and those
  -- of SidecarState count.
  pub record P2pController : Type 0 where
    pub config : P2pConfig
    pub node : Option Node

  pub record RuntimeState : Type 0 where
    pub peer_id : Option String
    pub display_name : String
    pub running : Bool
    pub p2p : Option P2pController

  -- RuntimeState::default
  abbrev pub default_runtime : RuntimeState
  default_runtime = record {
    peer_id = none;
    display_name = default_display_name;
    running = false;
    p2p = none;
  }

  -- `events` is what went out on the broadcast so far.
  pub record SidecarState : Type 0 where
    pub inner : RuntimeState
    pub wire : WireStore Value
    pub attachments : WireAttachmentStore
    pub events : List SidecarEvent
    pub http_port : ℕ

  unfoldable pub new_sidecar_state : ℕ → SidecarState
  new_sidecar_state http_port = record {
    inner = default_runtime;
    wire = WireStore.empty_store;
    attachments = AttachmentStore.empty_store;
    events = [];
    http_port = http_port;
  }

  -- The sidecar and the hosts that it sends requests to.
  pub record System ⦃http : Http Value⦄ : Type 0 where
    pub state : SidecarState
    pub world : http.World

  -- What an `async` function comes to: a result, or an `await` that nothing ends.
  pub data Outcome (A : Type 0) ⦃http : Http Value⦄ : Type 0 where
    done : A → System → Outcome A
    waiting : System → Outcome A

  module _ ⦃http : Http Value⦄ where
    abbrev pub Async : Type 0 → Type 0
    Async A = System → Outcome A

    infixl 5 ◌>>=◌
    abbrev pub ◌>>=◌ : {A B : Type 0} → Async A → (A → Async B) → Async B
    ◌>>=◌ m f s = elim (m s) [ done a s' ↦ f a s' | waiting s' ↦ waiting s' ]

    abbrev pub pure : {A : Type 0} → A → Async A
    pure a s = done a s

    -- The sidecar and the world after an outcome.
    abbrev pub system_of : {A : Type 0} → Outcome A → System
    system_of (done a s) = s
    system_of (waiting s) = s
