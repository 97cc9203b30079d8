-- ===== src/Examples/Texts.antt =====
-- The texts of JSON values and the broadcast channel: a concrete function for each operation of the
-- interfaces. The printer shortens what is not a constant; a receiver is its position.
use mesh_pad.Base.{
  ℕ, zero, suc, ◌+◌, ◌-◌, ◌^◌, ◌≤◌, ◌<◌, ◌≡◌, refl, String, true, false, Option, none, some, List,
  [], ◌∷◌, ◌++◌, length, length-append, ltb, if◌then◌else◌, Result, ok, err, ◌==◌, string_key,
  arith,
}
use mesh_pad.Base.Text.{has_nul}
use mesh_pad.External.JsonText.{JsonText}
use mesh_pad.External.Broadcast.{Broadcast, Received, received, empty, lagged}
use mesh_pad.Events.{SidecarEvent}
use mesh_pad.Examples.Trees.{Tree, null, bool, number, string, array, object, end}

abbrev print : Tree → String
print null = "null"
print (bool true) = "true"
print (bool false) = "false"
print (number n) = "1"
print (string s) = "\"\""
print (array vs) = "[]"
print (object ms) = "{}"

abbrev read : String → Result Tree String
read s =
    if s == "null"
    then ok null
    else if s == "true"
    then ok (bool true)
    else if s == "{}"
    then ok (object end)
    else err "expected value"

pub print-no_nul : (v : Tree) → has_nul (print v) ≡ false
unfolding has_nul
print-no_nul null = refl
print-no_nul (bool true) = refl
print-no_nul (bool false) = refl
print-no_nul (number n) = refl
print-no_nul (string s) = refl
print-no_nul (array vs) = refl
print-no_nul (object ms) = refl

instance abbrev pub printed : JsonText Tree
printed = record { to_text = print; from_text = read; to_text-no_nul = print-no_nul }

abbrev nth : List SidecarEvent → ℕ → Option SidecarEvent
nth [] n = none
nth (e ∷ es) zero = some e
nth (e ∷ es) (suc n) = nth es n

abbrev take_next : Option SidecarEvent → ℕ → Received × ℕ
take_next none r = (empty, r)
take_next (some e) r = (received e, r + 1)

abbrev receive : ℕ → List SidecarEvent → ℕ → Received × ℕ
receive capacity sent r =
    if ltb (r + capacity) (length sent)
    then (lagged (length sent - capacity - r), length sent - capacity)
    else take_next (nth sent r) r

pub nth-append :
    (before after : List SidecarEvent) (e : SidecarEvent)
    → nth (before ++ e ∷ after) (length before) ≡ some e
nth-append [] after e = refl
nth-append (b ∷ before) after e = nth-append before after e

pub nth-length : (sent : List SidecarEvent) → nth sent (length sent) ≡ none
nth-length [] = refl
nth-length (e ∷ sent) = nth-length sent

pub ltb-append :
    (capacity : ℕ) (before after : List SidecarEvent)
    → length after ≤ capacity
    → ltb (length before + capacity) (length (before ++ after)) ≡ false
ltb-append capacity before after h = rw (length-append before after) (ground (arith, h))

pub ltb_enough : (n capacity : ℕ) → ltb (n + capacity) n ≡ false
ltb_enough n capacity = ground arith

pub ltb_short : (a b : ℕ) → a < b → ltb a b ≡ true
ltb_short a b h = ground (arith, h)

instance abbrev pub numbered : Broadcast
numbered = record {
  Receiver = ℕ;
  subscribe = length;
  try_recv = receive;
  position = λ r. r;
  position-subscribe = λ sent. refl;
  try_recv-received = λ k before after e r at few.
      rw at
        (rw (ltb-append (2 ^ k) before (e ∷ after) few, nth-append before after e) (refl, refl));
  try_recv-empty =
      λ k sent r at. rw at (rw (ltb_enough (length sent) (2 ^ k), nth-length sent) refl);
  try_recv-lagged = λ k sent r h. rw (ltb_short (r + 2 ^ k) (length sent) h) (refl, refl);
}
