-- ===== src/Ffi/Direct/Requests.antt =====
-- meshpad_ffi_request: what it gives for each argument.
use mesh_pad.Base.{
  [], ◌∷◌, ◌≢◌, sym, ◌∙◌, ℕ, suc, zero, ◌≤◌, ◌≡◌, refl, ap, ◌⊎◌, inl, inr, String, Option, none,
  some, Result, ok, err, arith,
}
use mesh_pad.External.Json.{Json}
use mesh_pad.External.Base64.{Base64}
use mesh_pad.External.Libp2p.{Libp2p}
use mesh_pad.External.Http.{Http}
use mesh_pad.External.Serde.{Serde}
use mesh_pad.External.Tokio.{Tokio}
use mesh_pad.External.JsonText.{JsonText}
use mesh_pad.External.Broadcast.{Broadcast}
use mesh_pad.Base.Text.{trim}
use mesh_pad.AttachmentStore.Upsert.{is_empty_iff}
use mesh_pad.Sidecar.{System, Outcome, done, waiting}
use mesh_pad.SidecarApi.Sync.{Environment}
use mesh_pad.SidecarApi.Dispatch.{HttpMethod, get, post, dispatch_json}
use mesh_pad.Ffi.{CText, text, invalid, error_value, error_ptr, json_ptr_text}
use mesh_pad.Ffi.Direct.{
  method_of, path_of, body_value, DirectRuntime, Process, Call, returned, blocked, reply_of,
  with_system, parsed, request_checked, request_to, request, reply_ptr,
}

abbrev pub method_number : HttpMethod → ℕ
method_number get = 0
method_number post = 1

module _ ⦃json : Json⦄ ⦃base64 : Base64⦄ ⦃libp2p : Libp2p json.Value⦄ ⦃http : Http json.Value⦄
    ⦃broadcast : Broadcast⦄ ⦃serde : Serde⦄ ⦃tokio : Tokio⦄ ⦃texts : JsonText json.Value⦄ where
  open json use {Value, object, string}

  -- The value of a result, or the object `{"error": …}` of its error.
  abbrev pub reply_value : Result Value String → Value
  reply_value (ok value) = value
  reply_value (err e) = object (("error", string e) ∷ [])

  -- The started runtime with the state and the world of a system, at the same place in the events.
  abbrev pub runs : broadcast.Receiver → System → Process
  runs rx s = record { direct = some (record { state = s.state; events_rx = rx }); world = s.world }

  -- The text of the reply, and the system in the runtime; or the wait of the dispatch.
  abbrev pub Answers : broadcast.Receiver → Outcome (Result Value String) → Call → Type 0
  Answers rx (done r s) c = c ≡ returned (some (texts.to_text (reply_value r))) (runs rx s)
  Answers rx (waiting s) c = c ≡ blocked (runs rx s)

  -- Which body an argument is: none for null and for a text of white space, and else what its JSON
  -- says. One that is not UTF-8 is no body.
  abbrev pub Reads : Option CText → Option Value → Type 0
  Reads none body = body ≡ none
  Reads (some invalid) body = ⊥
  Reads (some (text s)) body =
      ((trim s ≡ "") × (body ≡ none))
      ⊎ ((trim s ≢ "") × (v : Value) × (texts.from_text s ≡ ok v) × (body ≡ some v))

  trimmed :
      (s : String) (read : Result Value String)
      → trim s ≡ ""
      → texts.from_text s ≡ read
      → body_value (some (text s)) ≡ ok none
  unfolding body_value
  trimmed s read e e' = ground (arith, is_empty_iff (trim s), e)

  untrimmed : (s : String) → trim s ≢ "" → body_value (some (text s)) ≡ parsed (texts.from_text s)
  unfolding body_value
  untrimmed s h = ground (arith, is_empty_iff (trim s), h)

  Reads-body_value :
      (argument : Option CText) (body : Option Value)
      → Reads argument body
      → body_value argument ≡ ok body
  unfolding body_value
  Reads-body_value none body e = ap ok (sym e)
  Reads-body_value (some invalid) body h = absurd h
  Reads-body_value (some (text s)) body (inl (e, none')) =
      trimmed s (texts.from_text s) e refl ∙ ap ok (sym none')
  Reads-body_value (some (text s)) body (inr (h, v, e, some')) =
      untrimmed s h ∙ ap parsed e ∙ ap ok (sym some')

  reply_ptr_text : (r : Result Value String) → reply_ptr r ≡ some (texts.to_text (reply_value r))
  unfolding error_ptr
  reply_ptr_text (ok value) = json_ptr_text value
  reply_ptr_text (err e) = json_ptr_text (error_value e)

  reply_of-Answers :
      (runtime : DirectRuntime) (o : Outcome (Result Value String))
      → Answers runtime.events_rx o (reply_of runtime o)
  reply_of-Answers runtime (done r s) =
      ap (λ t. returned t (with_system runtime s)) (reply_ptr_text r)
  reply_of-Answers runtime (waiting s) = refl

  method_of-method_number : (method : HttpMethod) → method_of (method_number method) ≡ ok method
  method_of-method_number get = refl
  method_of-method_number post = refl

  -- A request to a started runtime, with the method 0 for GET or 1 for POST, a path in UTF-8 and an
  -- argument that is null, white space or JSON in UTF-8, does what dispatch_json does with no body, or
  -- with the value of the JSON: its state and its world are the runtime's and the process's after the
  -- call, whose place in the events is the same, and the call returns the text of its value, or of an
  -- object with its error as "error", and never null; where it waits, the call waits.
  pub request-dispatch_json :
      (env : Environment) (runtime : DirectRuntime) (w : http.World) (method : HttpMethod)
      (path : String) (argument : Option CText) (body : Option Value)
      → Reads argument body
      → Answers runtime.events_rx
          (dispatch_json env method path body (record { state = runtime.state; world = w }))
          (request env
            (method_number method)
            (text path)
            argument
            (record { direct = some runtime; world = w }))
  unfolding request
  request-dispatch_json env runtime w method path argument body read =
      rw (Reads-body_value argument body read, method_of-method_number method)
        (reply_of-Answers runtime _)

  -- The object with an error, and the process as it was.
  abbrev pub IsRefused : Process → Call → Type 0
  IsRefused p c =
      (e : String) × (c ≡ returned (some (texts.to_text (object (("error", string e) ∷ [])))) p)

  refused : (p : Process) (e : String) → IsRefused p (returned (error_ptr e) p)
  unfolding error_ptr
  refused p e = (e, ap (λ t. returned t p) (json_ptr_text (error_value e)))

  -- A body that is not UTF-8, or a text, not of white space alone, that is not JSON.
  abbrev pub IsUnreadBody : Option CText → Type 0
  IsUnreadBody none = ⊥
  IsUnreadBody (some invalid) = Unit
  IsUnreadBody (some (text s)) = (trim s ≢ "") × (e : String) × (texts.from_text s ≡ err e)

  body_value_unread :
      (argument : Option CText)
      → IsUnreadBody argument
      → (e : String) × (body_value argument ≡ err e)
  unfolding body_value
  body_value_unread none h = absurd h
  body_value_unread (some invalid) h = (_, refl)
  body_value_unread (some (text s)) (h, e, e') = (e, untrimmed s h ∙ ap parsed e')

  -- An argument that a request does not take.
  abbrev pub IsUnread : ℕ → CText → Option CText → Type 0
  IsUnread method path argument = (path ≡ invalid) ⊎ (IsUnreadBody argument ⊎ (2 ≤ method))

  checked-IsRefused :
      (env : Environment) (runtime : DirectRuntime) (p : Process) (path : Result String String)
      (body : Result (Option Value) String) (method : Result HttpMethod String)
      → ((e : String) × (path ≡ err e))
        ⊎ (((e : String) × (body ≡ err e)) ⊎ ((e : String) × (method ≡ err e)))
      → IsRefused p (request_checked env runtime p path body method)
  checked-IsRefused env runtime p (err e) body method h = refused p e
  checked-IsRefused env runtime p (ok path) (err e) method h = refused p e
  checked-IsRefused env runtime p (ok path) (ok body) (err e) h = refused p e
  checked-IsRefused env runtime p (ok path) (ok body) (ok method) (inl (e, h)) = cc
  checked-IsRefused env runtime p (ok path) (ok body) (ok method) (inr (inl (e, h))) = cc
  checked-IsRefused env runtime p (ok path) (ok body) (ok method) (inr (inr (e, h))) = cc

  method_of_large : (method : ℕ) → 2 ≤ method → (e : String) × (method_of method ≡ err e)
  method_of_large zero h = absurd (omega (arith, h))
  method_of_large (suc zero) h = absurd (omega (arith, h))
  method_of_large (suc (suc n)) h = (_, refl)

  -- A request is refused, with an object that has an error, and changes nothing: when no runtime is
  -- started, and when the path or the body is not UTF-8, the body is not JSON and not white space
  -- alone, or the method is neither 0 nor 1.
  pub request-IsRefused :
      (env : Environment) (method : ℕ) (path : CText) (argument : Option CText) (p : Process)
      → (p.direct ≡ none) ⊎ IsUnread method path argument
      → IsRefused p (request env method path argument p)
  unfolding request
  request-IsRefused env method path argument p h = by_runtime p.direct h
    where
      by_runtime :
          (direct : Option DirectRuntime)
          → (direct ≡ none) ⊎ IsUnread method path argument
          → IsRefused p (request_to env method path argument p direct)
      by_runtime none h = refused p "direct runtime not started"
      by_runtime (some runtime) (inl h) = cc
      by_runtime (some runtime) (inr (inl h)) =
          checked-IsRefused env runtime p _ _ _ (inl (_, ap path_of h))
      by_runtime (some runtime) (inr (inr (inl h))) =
          checked-IsRefused env runtime p _ _ _ (inr (inl (body_value_unread argument h)))
      by_runtime (some runtime) (inr (inr (inr h))) =
          checked-IsRefused env runtime p _ _ _ (inr (inr (method_of_large method h)))
