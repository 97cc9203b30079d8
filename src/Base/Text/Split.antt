-- ===== src/Base/Text/Split.antt =====
-- Splitting a text at the first separator.
use Prim.Native.Nat.{ℕ}
use Prim.Native.Char.{Char, code}
use Prim.Native.String.{String}
use mathlib.Core.Path.{◌≡◌}
use mathlib.Core.Logic.{◌≢◌}
use mathlib.Core.Option.{some}
use native.Mathlib.Omega.{arith}
use text.Mathlib.TextLemmas.{nil-append, cons-append}
use mesh_pad.Base.Text.{concat, split_once}

-- No character of the text has this code.
abbrev pub Avoids : ℕ → String → Type 0
Avoids sep String.[] = Unit
Avoids sep (String.◌∷◌ c s) = (code c ≢ sep) × Avoids sep s

-- A text without the separator, the separator, and a rest split into the text and the rest.
pub split_once-concat :
    (c : Char) (a b : String)
    → Avoids (code c) a
    → split_once (concat a (String.◌∷◌ c b)) (code c) ≡ some (a, b)
unfolding split_once
split_once-concat c String.[] b h = rw nil-append (ground (arith))
split_once-concat c (String.◌∷◌ d a) b h =
    rw cons-append (ground (arith, split_once-concat c a b h.1))
