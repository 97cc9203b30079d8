-- ===== src/External/Axum.antt =====
-- axum: which handler of a router gets a request, and what its extractor `Json` makes of a body.
use mesh_pad.Base.{
  ℕ, ◌≤◌, ◌<◌, Result, ok, err, ◌≡◌, String, Bool, true, false, ◌&&◌, Option, none, some, List, [],
  ◌∷◌, ◌==◌, string_key, if◌then◌else◌,
}
use mesh_pad.SidecarApi.Dispatch.{HttpMethod, get, post}

abbrev pub same_method : HttpMethod → HttpMethod → Bool
same_method get get = true
same_method get post = false
same_method post get = false
same_method post post = true

-- The handler of the first route that has this method and this path.
module _ {Handler : Type 0} where
  unfoldable pub first_route :
      HttpMethod → String → List (HttpMethod × String × Handler) → Option Handler
  first_route method path [] = none
  first_route method path ((m, p, h) ∷ rest) =
      if same_method m method && p == path then some h else first_route method path rest

-- The body of a request: whether its content type is that of JSON, its length in bytes, and the value
-- that it holds where it is JSON. No object of this JSON has a key twice.
pub record HttpBody (Value : Type 0) : Type 0 where
  pub json_type : Bool
  pub bytes : ℕ
  pub value : Option Value

-- What DefaultBodyLimit is where a router does not set it.
abbrev pub default_body_limit : ℕ
default_body_limit = 2097152

-- The value, deserialized.
abbrev pub read_ok : {T : Type 0} → Result T String → Option T
read_ok (ok t) = some t
read_ok (err e) = none

module _ {Value T : Type 0} where
  abbrev pub read_value : (Value → Result T String) → Option Value → Option T
  read_value read none = none
  read_value read (some v) = read_ok (read v)

-- Where the paths of the routes have no parameters, a request gets the handler of its own method and
-- path, or none. `Json` refuses a body without the content type or over the limit, and else reads it.
pub record Axum (Value Handler : Type 0) : Type 1 where
  pub find : List (HttpMethod × String × Handler) → HttpMethod → String → Option Handler
  pub find-exact :
      (routes : List (HttpMethod × String × Handler)) (method : HttpMethod) (path : String)
      → find routes method path ≡ first_route method path routes
  pub extract : {T : Type 0} → (Value → Result T String) → HttpBody Value → Option T
  pub extract-untyped :
      {T : Type 0} (read : Value → Result T String) (body : HttpBody Value)
      → body.json_type ≡ false
      → extract read body ≡ none
  pub extract-large :
      {T : Type 0} (read : Value → Result T String) (body : HttpBody Value)
      → default_body_limit < body.bytes
      → extract read body ≡ none
  pub extract-read :
      {T : Type 0} (read : Value → Result T String) (body : HttpBody Value)
      → body.json_type ≡ true
      → body.bytes ≤ default_body_limit
      → extract read body ≡ read_value read body.value
