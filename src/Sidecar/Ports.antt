-- ===== src/Sidecar/Ports.antt =====
-- sidecar.rs: resolve_http_port and default_lan_http_port. The environment variables and the
-- arguments of the process are given; a variable that is not set is none.
use mesh_pad.Base.{
  ℕ, ◌<◌, ◌≡◌, ◌≢◌, refl, String, Option, none, some, List, [], ◌∷◌, ◌++◌, ◌>>=◌, ◌==◌, string_key,
  unwrap_or, if◌then◌else◌, arith, All, same_ne, Option-cases, inl, inr,
}
use mesh_pad.Base.Text.Decimal.{decimal}
use mesh_pad.Base.Text.Unsigned.{parse_u16, parse_u16-lt, parse_u16-decimal}
use mesh_pad.Sidecar.{default_port, default_lan_port}

-- what stands behind `--port`
abbrev port_after : List String → ℕ
port_after [] = default_port
port_after (next ∷ rest) = unwrap_or (parse_u16 next) default_port

-- the loop over the arguments
unfoldable pub port_arg : List String → ℕ
port_arg [] = default_port
port_arg (arg ∷ rest) = if arg == "--port" then port_after rest else port_arg rest

-- the loop begins at the argument 1
abbrev pub skip_program : List String → List String
skip_program [] = []
skip_program (program ∷ args) = args

unfoldable pub resolve_http_port : Option String → List String → ℕ
unfolding port_arg
resolve_http_port variable args =
    unwrap_or (do raw ← variable; parse_u16 raw) (port_arg (skip_program args))

unfoldable pub default_lan_http_port : Option String → ℕ
default_lan_http_port variable = unwrap_or (do raw ← variable; parse_u16 raw) default_lan_port

unwrap_or-lt : (s : String) (d : ℕ) → d < 65536 → unwrap_or (parse_u16 s) d < 65536
unwrap_or-lt s d h = elim (Option-cases (parse_u16 s)) [
  | inl e ↦ rw e h
  | inr (r, e) ↦ rw e (parse_u16-lt s r e)
]

port_after-lt : (args : List String) → port_after args < 65536
port_after-lt [] = omega arith
port_after-lt (next ∷ rest) = unwrap_or-lt next default_port (omega arith)

port_arg-lt : (args : List String) → port_arg args < 65536
unfolding port_arg
port_arg-lt [] = omega arith
port_arg-lt (arg ∷ rest) = ground (arith, port_after-lt rest, port_arg-lt rest)

-- The port of the sidecar and that of peers are 16-bit numbers, whatever the variables and the
-- arguments are.
pub resolve_http_port-lt :
    (variable : Option String) (args : List String)
    → (resolve_http_port variable args < 65536) × (default_lan_http_port variable < 65536)
unfolding resolve_http_port default_lan_http_port
resolve_http_port-lt none args = (port_arg-lt (skip_program args), omega arith)
resolve_http_port-lt (some raw) args = (
  unwrap_or-lt raw (port_arg (skip_program args)) (port_arg-lt (skip_program args)),
  unwrap_or-lt raw default_lan_port (omega arith),
)

port_arg-append :
    (before rest : List String)
    → All (λ a. a ≢ "--port") before
    → port_arg (before ++ rest) ≡ port_arg rest
unfolding port_arg
port_arg-append [] rest h = refl
port_arg-append (a ∷ before) rest h = rw (same_ne a "--port" h.0) (port_arg-append before rest h.1)

-- A port, printed, is the port of the sidecar when the variable has it; when the variable is not
-- set and the first `--port` of the arguments stands before it, too. With neither, it is the default.
pub resolve_http_port_lem :
    (port : ℕ) (args : List String) (program : String) (before after : List String)
    → port < 65536
    → All (λ a. a ≢ "--port") before
    → (resolve_http_port (some (decimal port)) args ≡ port)
      × (resolve_http_port none (program ∷ (before ++ "--port" ∷ decimal port ∷ after)) ≡ port)
      × (resolve_http_port none (program ∷ (before ++ [])) ≡ default_port)
unfolding resolve_http_port port_arg
resolve_http_port_lem port args program before after fits plain = (
  rw (parse_u16-decimal port fits) refl,
  rw (port_arg-append before ("--port" ∷ decimal port ∷ after) plain)
      (rw (parse_u16-decimal port fits) refl),
  rw (port_arg-append before [] plain) refl,
)
