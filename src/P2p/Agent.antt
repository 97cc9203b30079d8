-- ===== src/P2p/Agent.antt =====
-- The agent string by which MeshPad peers know one another: `meshpad/<peer id>/<display name>`.
pub mod RoundTrip
use mesh_pad.Base.{◌≡◌, refl, String, Option, none, some, ◌>>=◌, if◌then◌else◌}
use mesh_pad.Base.Text.{is_empty, concat, split_once, strip_prefix, trim}

-- AGENT_PREFIX
abbrev pub agent_prefix : String
agent_prefix = "meshpad/"

-- the `agent_version` of `run_swarm`
unfoldable pub agent_version : String → String → String
agent_version local_peer_id display_name =
    concat agent_prefix (concat local_peer_id (concat "/" display_name))

-- `rest.splitn(2, '/')`: the first part, and the second if there is one
abbrev pub splitn_2 : String → Option (String × String) → String × Option String
splitn_2 rest none = (rest, none)
splitn_2 rest (some (a, b)) = (a, some b)

-- `.filter(|s| !s.is_empty()).unwrap_or("MeshPad")`
abbrev pub name_or_default : Option String → String
name_or_default none = "MeshPad"
name_or_default (some name) = if is_empty name then "MeshPad" else name

abbrev pub agent_parts : String × Option String → Option (String × String)
agent_parts (first, second) =
    let peer_id = trim first in
    if is_empty peer_id then none else some (peer_id, name_or_default second)

unfoldable pub parse_meshpad_agent : String → Option (String × String)
unfolding strip_prefix split_once trim
parse_meshpad_agent agent = do
  rest ← strip_prefix agent agent_prefix
  agent_parts (splitn_2 rest (split_once rest b'/'))

parse_meshpad_agent_splits :
    parse_meshpad_agent "meshpad/peer-a/My Device" ≡ some ("peer-a", "My Device")
unfolding parse_meshpad_agent
parse_meshpad_agent_splits = refl
