-- ===== src/P2p/Agent/RoundTrip.antt =====
-- A peer reads the agent string that this sidecar writes.
use text.Mathlib.TextLemmas.{nil-append, cons-append}
use mesh_pad.Base.{◌≡◌, refl, String, some, false, arith, if◌then◌else◌}
use mesh_pad.Base.Text.{is_empty, concat, split_once, strip_prefix, trim}
use mesh_pad.Base.Text.Split.{Avoids, split_once-concat}
use mesh_pad.P2p.Agent.{agent_prefix, agent_version, parse_meshpad_agent}

strip_prefix-concat : (p s : String) → strip_prefix (concat p s) p ≡ some s
unfolding strip_prefix
strip_prefix-concat String.[] s = rw nil-append (strip_nil s)
  where
    strip_nil : (t : String) → strip_prefix t "" ≡ some t
    strip_nil String.[] = refl
    strip_nil (String.◌∷◌ c t) = refl
strip_prefix-concat (String.◌∷◌ c p) s = rw cons-append (ground (arith, strip_prefix-concat p s))

split_slash :
    (id name : String)
    → Avoids b'/' id
    → split_once (concat id (concat "/" name)) b'/' ≡ some (id, name)
split_slash id name h = rw cons-append (rw nil-append (split_once-concat "/" id name h))

-- For a peer id that is not empty, is not changed by trimming and holds no slash, the agent string
-- is read back as the peer id and the display name, and as `MeshPad` where that name is empty.
pub parse_meshpad_agent-agent_version :
    (id name : String)
    → is_empty id ≡ false
    → trim id ≡ id
    → Avoids b'/' id
    → parse_meshpad_agent (agent_version id name)
      ≡ some (id, if is_empty name then "MeshPad" else name)
unfolding parse_meshpad_agent agent_version
parse_meshpad_agent-agent_version id name filled trimmed plain =
    rw (strip_prefix-concat agent_prefix (concat id (concat "/" name)))
      (rw (split_slash id name plain) (rw (trimmed) (rw filled refl)))
