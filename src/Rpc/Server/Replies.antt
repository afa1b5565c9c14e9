-- ===== src/Rpc/Server/Replies.antt =====
-- What a server answers: a readable response to a message.
use celery_cnc.Base.{
  ◌≡◌, refl, sym, ◌∙◌, inl, inr, String, ◌<>◌, true, false, Option, none, some, List, [], ◌∷◌,
  contains, string_eq, nat_eq, if◌then◌else◌, ltb, Bool-cases, ==_cases, ap,
}
use celery_cnc.Base.Dict.{lookup}
use celery_cnc.Value.{Fields}
use celery_cnc.Rpc.Action.{
  Result, ok, raised, Exception, validation_error, value_error, type_error, runtime_error,
  rpc_call_error,
}
use celery_cnc.Rpc.Controller.{BaseDbController}
use celery_cnc.Rpc.Messages.{RpcError, RpcRequestEnvelope, RpcResponseEnvelope, rpc_schema_version}
use celery_cnc.Rpc.Operations.{Op, rpc_operations}
use celery_cnc.Rpc.Dispatch.{SqliteEngine}
use celery_cnc.Rpc.Wire.{Wire}
use celery_cnc.Rpc.Server.{
  Settings, code_of, failure, error_response, error_answer, handle_error, answer, respond, written,
  is_validation_error, handle_operation, routed, dispatch_envelope, dispatch_read, dispatch,
}

abbrev pub reply_codes : List String
reply_codes =
    "SCHEMA_UNSUPPORTED" ∷ "OP_NOT_FOUND" ∷ "VALIDATION_ERROR" ∷ "SERVER_ERROR"
    ∷ "MESSAGE_TOO_LARGE" ∷ "BUSY" ∷ []

-- A response has a payload and no error, or an error with a known code and no payload.
pub data IsReply {P : Type 0} : RpcResponseEnvelope P → Type 0 where
  success :
      {r : RpcResponseEnvelope P} (p : P)
      → r.ok ≡ true
      → r.payload ≡ some p
      → r.error ≡ none
      → IsReply r
  refusal :
      {r : RpcResponseEnvelope P} (e : RpcError)
      → r.ok ≡ false
      → r.payload ≡ none
      → r.error ≡ some e
      → contains reply_codes e.code ≡ true
      → IsReply r

module _ {F S : Type 0} (W : Wire F) (controller : BaseDbController F S)
    (sqlite : Option (SqliteEngine S)) (c : Settings W controller sqlite) where
  -- What a message is answered by: bytes that are read as a response with an id; or nothing, where the
  -- details of a validation error have no JSON and the thread of the connection ends, which needs a
  -- reason.
  pub data Replies (Reason : Type 0) (id : String) : Option W.Bytes → Type 0 where
    replied :
        {o : Option W.Bytes} (bytes : W.Bytes) (r : RpcResponseEnvelope W.Payload)
        → o ≡ some bytes
        → W.read_response bytes ≡ some r
        → r.request_id ≡ id
        → r.schema_version ≡ rpc_schema_version
        → IsReply r
        → Replies Reason id o
    thread_ended :
        {o : Option W.Bytes}
        → Reason
        → o ≡ none
        → W.can_write (some c.errors) ≡ false
        → Replies Reason id o

  -- The reasons: the message fails its validation, or its operation raises a validation error, as one
  -- does whose payload does not fit its model.
  pub data IsInvalid (message : W.Bytes) (db : S) : Type 0 where
    unreadable : W.read_request message ≡ none → IsInvalid message db
    raises :
        (e : RpcRequestEnvelope W.Payload) (op : Op)
        → W.read_request message ≡ some e
        → e.schema_version ≡ rpc_schema_version
        → lookup e.op rpc_operations ≡ some op
        → (handle_operation W controller sqlite op e.payload db).0 ≡ raised validation_error
        → IsInvalid message db

  error_response-Replies :
      (Reason : Type 0) (id code message : String)
      → contains reply_codes code ≡ true
      → Replies Reason id (some (error_response W controller sqlite c id code message))
  unfolding error_response failure
  error_response-Replies Reason id code message known =
      replied _ _ refl (W.read-write_error _ _ refl refl W.no_details) refl refl
        (refusal _ refl refl refl known)

  code_of-known : (e : Exception) → contains reply_codes (code_of e) ≡ true
  unfolding code_of string_eq
  code_of-known validation_error = refl
  code_of-known value_error = refl
  code_of-known type_error = refl
  code_of-known runtime_error = refl
  code_of-known (rpc_call_error code) = refl

  -- The answer to an exception, whose details are those of a validation error or none.
  written-Replies :
      (Reason : Type 0) (id code message : String) (details : Option Fields)
      → (W.can_write details ≡ false → Reason × (W.can_write (some c.errors) ≡ false))
      → contains reply_codes code ≡ true
      → Replies Reason id (
          written W controller sqlite (
            failure W controller sqlite c.now id
              (record { code = code; message = message; details = details })))
  unfolding failure
  written-Replies Reason id code message details h known = elim (Bool-cases (W.can_write details)) [
    | inl t ↦ rw t (
        replied _ _ refl (W.read-write_error _ _ refl refl t) refl refl
          (refusal _ refl refl refl known))
    | inr t ↦ rw t (let (reason, none_written) = h t in thread_ended reason refl none_written)
  ]

  details-can_write :
      (Reason : Type 0) (e : Exception)
      → (e ≡ validation_error → Reason)
      → W.can_write (if is_validation_error e then some c.errors else none) ≡ false
      → Reason × (W.can_write (some c.errors) ≡ false)
  details-can_write Reason validation_error why h = (why refl, h)
  details-can_write Reason value_error why h = absurd (cc (sym W.no_details ∙ h))
  details-can_write Reason type_error why h = absurd (cc (sym W.no_details ∙ h))
  details-can_write Reason runtime_error why h = absurd (cc (sym W.no_details ∙ h))
  details-can_write Reason (rpc_call_error code) why h = absurd (cc (sym W.no_details ∙ h))

  handle_error-Replies :
      (Reason : Type 0) (id : String) (e : Exception)
      → (e ≡ validation_error → Reason)
      → Replies Reason id (handle_error W controller sqlite c id e)
  unfolding handle_error error_answer
  handle_error-Replies Reason id e why =
      written-Replies Reason id (code_of e) _ _ (details-can_write Reason e why) (code_of-known e)

  respond-Replies :
      (Reason : Type 0) (id : String) (x : Result W.Payload)
      → (x ≡ raised validation_error → Reason)
      → Replies Reason id (respond W controller sqlite c id x)
  unfolding respond answer handle_error
  respond-Replies Reason id (ok p) why =
      rw W.no_details
        (replied _ _ refl (W.read-write_payload _ p refl refl) refl refl (success _ refl refl refl))
  respond-Replies Reason id (raised e) why =
      handle_error-Replies Reason id e (λ q. why (ap raised q))

  abbrev pub read_id : String → Option (RpcRequestEnvelope W.Payload) → String
  read_id server_id none = server_id
  read_id server_id (some e) = e.request_id

  -- The id that the answer to a message carries: its own, or the server's where it cannot be read.
  unfoldable pub reply_id : String → W.Bytes → String
  reply_id server_id message =
      if ltb c.rpc_max_message_bytes (W.size message)
      then server_id
      else read_id server_id (W.read_request message)

  routed-Replies :
      (Reason : Type 0) (e : RpcRequestEnvelope W.Payload) (o : Option Op) (db : S)
      → ((op : Op)
          → o ≡ some op
          → (handle_operation W controller sqlite op e.payload db).0 ≡ raised validation_error
          → Reason)
      → Replies Reason e.request_id (routed W controller sqlite c e o db).0
  unfolding routed string_eq
  routed-Replies Reason e none db why =
      error_response-Replies Reason e.request_id "OP_NOT_FOUND" ("Unknown operation: " <> e.op) refl
  routed-Replies Reason e (some op) db why =
      respond-Replies Reason e.request_id (handle_operation W controller sqlite op e.payload db).0
        (why op refl)

  dispatch_envelope-Replies :
      (message : W.Bytes) (e : RpcRequestEnvelope W.Payload) (db : S)
      → W.read_request message ≡ some e
      → Replies (IsInvalid message db) e.request_id (dispatch_envelope W controller sqlite c e db).0
  unfolding dispatch_envelope string_eq
  dispatch_envelope-Replies message e db reads =
      elim (==_cases e.schema_version rpc_schema_version) [
        | inl (version, same) ↦ rw same (
            routed-Replies (IsInvalid message db) e (lookup e.op rpc_operations) db
              (λ op. raises e op reads version))
        | inr (n, other) ↦ rw other (
            error_response-Replies (IsInvalid message db) e.request_id "SCHEMA_UNSUPPORTED"
              "Unsupported RPC schema version" refl)
      ]

  dispatch_read-Replies :
      (server_id : String) (message : W.Bytes) (o : Option (RpcRequestEnvelope W.Payload)) (db : S)
      → W.read_request message ≡ o
      → Replies
          (IsInvalid message db)
          (read_id server_id o)
          (dispatch_read W controller sqlite c server_id o db).0
  unfolding dispatch_read
  dispatch_read-Replies server_id message none db reads =
      handle_error-Replies (IsInvalid message db) server_id validation_error (λ q. unreadable reads)
  dispatch_read-Replies server_id message (some e) db reads =
      dispatch_envelope-Replies message e db reads

  -- A message has one answer that can be read, of the one schema version, with the id of the message, or
  -- the server's where the message is too long or cannot be read, and either a payload or an error with
  -- a known code; unless it cannot be read or its operation raises a validation error, and the details
  -- of this error cannot be written: then the thread of the connection may end without an answer.
  pub dispatch-IsReply :
      (server_id : String) (message : W.Bytes) (db : S)
      → Replies
          (IsInvalid message db)
          (reply_id server_id message)
          (dispatch W controller sqlite c server_id message db).0
  unfolding dispatch reply_id string_eq
  dispatch-IsReply server_id message db =
      elim (Bool-cases (ltb c.rpc_max_message_bytes (W.size message))) [
        | inl over ↦ rw over (
            error_response-Replies (IsInvalid message db) server_id "MESSAGE_TOO_LARGE"
              "RPC request exceeded max message size" refl)
        | inr fits ↦
            rw fits (dispatch_read-Replies server_id message (W.read_request message) db refl)
      ]
