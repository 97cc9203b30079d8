-- ===== src/AttachmentStore/Keys.antt =====
-- The key of an attachment: the note id and the name, with a NUL between.
use text.Mathlib.TextLemmas.{nil-append, cons-append}
use mesh_pad.Base.{◌≡◌, ap, String, some, arith}
use mesh_pad.Base.Text.{split_once}
use mesh_pad.Base.Text.Split.{Avoids, split_once-concat}
use mesh_pad.AttachmentStore.{attachment_key}

-- No character is NUL.
abbrev pub NulFree : String → Type 0
NulFree s = Avoids 0 s

pub split_once-attachment_key :
    (note_id name : String)
    → NulFree note_id
    → split_once (attachment_key note_id name) 0 ≡ some (note_id, name)
unfolding attachment_key
split_once-attachment_key note_id name h =
    rw cons-append (rw nil-append (split_once-concat "\0" note_id name h))

-- Two attachments of note ids without NUL share a key only if note id and name are the same.
pub attachment_key_injective :
    (note_id name note_id' name' : String)
    → NulFree note_id
    → NulFree note_id'
    → attachment_key note_id name ≡ attachment_key note_id' name'
    → (note_id ≡ note_id') × (name ≡ name')
attachment_key_injective note_id name note_id' name' h h' e = ground (
  arith,
  split_once-attachment_key note_id name h,
  split_once-attachment_key note_id' name' h',
  ap (λ k. split_once k 0) e,
)
