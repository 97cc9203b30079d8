-- ===== src/AttachmentStore.antt =====
-- wire_attachment_store.rs: the attachment blobs in memory, by note id and name.
pub mod Keys
pub mod Upsert
use mesh_pad.Base.{
  ℕ, ◌*◌, Bool, true, false, ◌||◌, String, Option, none, some, List, [], ◌∷◌, map, filter_map,
  if◌then◌else◌, string_key, length, ltb,
}
use mesh_pad.Base.Text.{is_empty, concat, split_once}
use mesh_pad.External.Base64.{Byte}
use mesh_pad.HashMap
use mesh_pad.HashMap.{HashMap}

-- MAX_ATTACHMENT_BYTES
abbrev pub max_attachment_bytes : ℕ
max_attachment_bytes = 16 * 1024 * 1024

unfoldable pub attachment_key : String → String → String
attachment_key note_id name = concat note_id (concat "\0" name)

pub record WireAttachmentStore : Type 0 where
  pub blobs : HashMap String (List Byte)

abbrev pub empty_store : WireAttachmentStore
empty_store = record { blobs = HashMap.empty }

-- WireAttachmentStore::len
unfoldable pub len : WireAttachmentStore → ℕ
len a = HashMap.len a.blobs

-- WireAttachmentStore::upsert
unfoldable pub upsert :
    WireAttachmentStore → String → String → List Byte → Bool × WireAttachmentStore
upsert a note_id name bytes =
    if is_empty note_id || is_empty name
    then (false, a)
    else if ltb max_attachment_bytes (length bytes)
    then (false, a)
    else (true, record { blobs = HashMap.insert a.blobs (attachment_key note_id name) bytes })

-- WireAttachmentStore::get
unfoldable pub get : WireAttachmentStore → String → String → Option (List Byte)
get a note_id name = HashMap.get a.blobs (attachment_key note_id name)

abbrev pub with_bytes : List Byte → Option (String × String) → Option (String × String × List Byte)
with_bytes bytes none = none
with_bytes bytes (some (note_id, name)) = some (note_id, name, bytes)

abbrev pub iter_entry : String × List Byte → Option (String × String × List Byte)
iter_entry (key, bytes) = with_bytes bytes (split_once key 0)

-- WireAttachmentStore::iter
unfoldable pub iter : WireAttachmentStore → List (String × String × List Byte)
iter a = filter_map iter_entry a.blobs.entries
