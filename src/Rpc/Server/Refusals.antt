-- ===== src/Rpc/Server/Refusals.antt =====
-- The messages that are refused before a handler runs: the answer, and that nothing is written.
use celery_cnc.Base.{
  ◌≡◌, ◌≢◌, ◌≤◌, refl, ap, inl, inr, Bool, Bool-cases, String, ◌<>◌, true, false, Option, none,
  some, arith, string_eq, nat_eq, ltb, subst, sym, ==_cases, ==_iff, ℕ, ◌<◌,
}
use celery_cnc.Base.Dict.{lookup}
use celery_cnc.Value.{Fields}
use celery_cnc.Rpc.Action.{validation_error}
use celery_cnc.Rpc.Controller.{BaseDbController}
use celery_cnc.Rpc.Messages.{RpcError, RpcRequestEnvelope, RpcResponseEnvelope, rpc_schema_version}
use celery_cnc.Rpc.Operations.{Op, rpc_operations}
use celery_cnc.Rpc.Dispatch.{SqliteEngine}
use celery_cnc.Rpc.Wire.{Wire}
use celery_cnc.Rpc.Server.{
  Settings, code_of, failure, error_response, error_answer, handle_error, answer, respond, written,
  handle_operation, run_operation, routed, dispatch_envelope, dispatch_read, dispatch,
}
use celery_cnc.Rpc.Server.Replies.{reply_id, read_id}

module _ {F S : Type 0} (W : Wire F) (controller : BaseDbController F S)
    (sqlite : Option (SqliteEngine S)) (c : Settings W controller sqlite) where
  -- Why a message is refused before a handler runs.
  pub data Refused (server_id : String) (message : W.Bytes) : Type 0 where
    too_large : c.rpc_max_message_bytes < W.size message → Refused server_id message
    unreadable :
        W.size message ≤ c.rpc_max_message_bytes
        → W.read_request message ≡ none
        → Refused server_id message
    other_schema :
        (e : RpcRequestEnvelope W.Payload)
        → W.size message ≤ c.rpc_max_message_bytes
        → W.read_request message ≡ some e
        → e.schema_version ≢ rpc_schema_version
        → Refused server_id message
    unknown_op :
        (e : RpcRequestEnvelope W.Payload)
        → W.size message ≤ c.rpc_max_message_bytes
        → W.read_request message ≡ some e
        → e.schema_version ≡ rpc_schema_version
        → lookup e.op rpc_operations ≡ none
        → Refused server_id message
    invalid :
        (e : RpcRequestEnvelope W.Payload) (op : Op)
        → W.size message ≤ c.rpc_max_message_bytes
        → W.read_request message ≡ some e
        → e.schema_version ≡ rpc_schema_version
        → lookup e.op rpc_operations ≡ some op
        → W.validate_request op (W.as_dict e.payload) ≡ none
        → Refused server_id message

  abbrev pub refused_code :
      {server_id : String} {message : W.Bytes} → Refused server_id message → String
  refused_code (too_large h) = "MESSAGE_TOO_LARGE"
  refused_code (unreadable h k) = "VALIDATION_ERROR"
  refused_code (other_schema e h k l) = "SCHEMA_UNSUPPORTED"
  refused_code (unknown_op e h k l m) = "OP_NOT_FOUND"
  refused_code (invalid e op h k l m n) = "VALIDATION_ERROR"

  -- Whether the answer can be written: the code VALIDATION_ERROR comes with details.
  abbrev pub is_written :
      {server_id : String} {message : W.Bytes} → Refused server_id message → Bool
  is_written (too_large h) = true
  is_written (unreadable h k) = W.can_write (some c.errors)
  is_written (other_schema e h k l) = true
  is_written (unknown_op e h k l m) = true
  is_written (invalid e op h k l m n) = W.can_write (some c.errors)

  -- The bytes answer by an error with this code, or there are none; and nothing was stored.
  abbrev pub IsRefusal : Bool → String → String → S → Option W.Bytes × S → Type 0
  IsRefusal true id code db x =
      (bytes : W.Bytes) × (r : RpcResponseEnvelope W.Payload) × (e : RpcError) × (x.0 ≡ some bytes)
      × (W.read_response bytes ≡ some r)
      × (r.request_id ≡ id)
      × (r.ok ≡ false)
      × (r.error ≡ some e)
      × (e.code ≡ code)
      × (x.1 ≡ db)
  IsRefusal false id code db x = (x.0 ≡ none) × (x.1 ≡ db)

  error_response-IsRefusal :
      (id code message : String) (db : S)
      → IsRefusal true id code db (some (error_response W controller sqlite c id code message), db)
  unfolding error_response failure
  error_response-IsRefusal id code message db =
      (_, _, _, refl, W.read-write_error _ _ refl refl W.no_details, refl, refl, refl, refl, refl)

  written-IsRefusal :
      (id code message : String) (details : Option Fields) (db : S)
      → IsRefusal (W.can_write details) id code db (
        written W controller sqlite (
            failure W controller sqlite c.now id
              (record { code = code; message = message; details = details })),
        db,
      )
  unfolding failure
  written-IsRefusal id code message details db = elim (Bool-cases (W.can_write details)) [
    | inl t ↦ rw t (_, _, _, refl, W.read-write_error _ _ refl refl t, refl, refl, refl, refl, refl)
    | inr t ↦ rw t (refl, refl)
  ]

  invalid-IsRefusal :
      (id : String) (db : S)
      → IsRefusal
          (W.can_write (some c.errors))
          id
          "VALIDATION_ERROR"
          db
          (handle_error W controller sqlite c id validation_error, db)
  unfolding handle_error error_answer code_of
  invalid-IsRefusal id db = written-IsRefusal id "VALIDATION_ERROR" _ (some c.errors) db

  under : (a b : ℕ) → a ≤ b → ltb b a ≡ false
  under a b h = ground arith

  over : (a b : ℕ) → a < b → ltb a b ≡ true
  over a b h = ground arith

  too_large-IsRefusal :
      (server_id : String) (message : W.Bytes) (db : S)
      → c.rpc_max_message_bytes < W.size message
      → IsRefusal true
          (reply_id W controller sqlite c server_id message)
          "MESSAGE_TOO_LARGE"
          db
          (dispatch W controller sqlite c server_id message db)
  unfolding dispatch reply_id
  too_large-IsRefusal server_id message db h = rw (over _ _ h) (
      error_response-IsRefusal server_id "MESSAGE_TOO_LARGE" "RPC request exceeded max message size"
        db)

  fits_read :
      (server_id : String) (message : W.Bytes) (db : S) {o : Option (RpcRequestEnvelope W.Payload)}
      → W.size message ≤ c.rpc_max_message_bytes
      → W.read_request message ≡ o
      → dispatch W controller sqlite c server_id message db
        ≡ dispatch_read W controller sqlite c server_id o db
  unfolding dispatch
  fits_read server_id message db h k =
      rw (under _ _ h) (ap (λ o. dispatch_read W controller sqlite c server_id o db) k)

  fits_id :
      (server_id : String) (message : W.Bytes) {o : Option (RpcRequestEnvelope W.Payload)}
      → W.size message ≤ c.rpc_max_message_bytes
      → W.read_request message ≡ o
      → reply_id W controller sqlite c server_id message ≡ read_id W controller sqlite c server_id o
  unfolding reply_id
  fits_id server_id message h k = rw (under _ _ h) (ap (read_id W controller sqlite c server_id) k)

  envelope-IsRefusal :
      (e : RpcRequestEnvelope W.Payload) (db : S)
      → e.schema_version ≢ rpc_schema_version
      → IsRefusal true e.request_id "SCHEMA_UNSUPPORTED" db
          (dispatch_envelope W controller sqlite c e db)
  unfolding dispatch_envelope
  envelope-IsRefusal e db n = elim (==_cases e.schema_version rpc_schema_version) [
    | inl (same, _) ↦ absurd (n same)
    | inr (_, other) ↦ rw other (
        error_response-IsRefusal e.request_id "SCHEMA_UNSUPPORTED" "Unsupported RPC schema version"
          db)
  ]

  envelope-routed :
      (e : RpcRequestEnvelope W.Payload) (db : S) {o : Option Op}
      → e.schema_version ≡ rpc_schema_version
      → lookup e.op rpc_operations ≡ o
      → dispatch_envelope W controller sqlite c e db ≡ routed W controller sqlite c e o db
  unfolding dispatch_envelope
  envelope-routed e db v l =
      rw ((==_iff e.schema_version rpc_schema_version).1 v)
        (ap (λ o. routed W controller sqlite c e o db) l)

  invalid-routed :
      (e : RpcRequestEnvelope W.Payload) (op : Op) (db : S)
      → W.validate_request op (W.as_dict e.payload) ≡ none
      → IsRefusal
          (W.can_write (some c.errors))
          e.request_id
          "VALIDATION_ERROR"
          db
          (routed W controller sqlite c e (some op) db)
  unfolding routed handle_operation respond answer error_answer handle_error
  invalid-routed e op db h =
      subst
        (λ o. IsRefusal (W.can_write (some c.errors)) e.request_id "VALIDATION_ERROR" db (
          let (x, s) = run_operation W controller sqlite op o db in
          (respond W controller sqlite c e.request_id x, s)))
        (sym h) (invalid-IsRefusal e.request_id db)

  -- A message that is too long, cannot be read, is of another schema version, names no operation or has a
  -- payload that does not fit its model leaves the database as it was, and is answered by an error with
  -- the code of its fault, under its own id, or the server's in the first two cases. Where this code is
  -- VALIDATION_ERROR and its details have no JSON, it is not answered.
  pub dispatch-Refused :
      (server_id : String) (message : W.Bytes) (db : S) (h : Refused server_id message)
      → IsRefusal
          (is_written h)
          (reply_id W controller sqlite c server_id message)
          (refused_code h)
          db
          (dispatch W controller sqlite c server_id message db)
  unfolding dispatch_read handle_error routed error_response
  dispatch-Refused server_id message db (too_large h) = too_large-IsRefusal server_id message db h
  dispatch-Refused server_id message db (unreadable h k) =
      rw (fits_read server_id message db h k, fits_id server_id message h k)
        (invalid-IsRefusal server_id db)
  dispatch-Refused server_id message db (other_schema e h k n) =
      rw (fits_read server_id message db h k, fits_id server_id message h k)
        (envelope-IsRefusal e db n)
  dispatch-Refused server_id message db (unknown_op e h k v l) =
      rw
        (
          fits_read server_id message db h k,
          fits_id server_id message h k,
          envelope-routed e db v l,
        )
        (error_response-IsRefusal e.request_id "OP_NOT_FOUND" ("Unknown operation: " <> e.op) db)
  dispatch-Refused server_id message db (invalid e op h k v l n) =
      rw
        (
          fits_read server_id message db h k,
          fits_id server_id message h k,
          envelope-routed e db v l,
        )
        (invalid-routed e op db n)
