-- ===== src/Rpc/Server.antt =====
-- celery_root/core/db/manager.py: the answer to a message. `server_id` is the id that the server makes
-- up for a message that it cannot read, and `now` its clock. The threads of the connections and their
-- lock are not modelled.
pub mod Replies
pub mod Refusals
use celery_cnc.Base.{
  ℕ, suc, ◌+◌, ◌-◌, String, ◌<>◌, Bool, true, false, not, Option, none, some, List, [], ◌∷◌, ◌++◌,
}
use celery_cnc.Base.{◌==◌, string_eq, nat_eq, if◌then◌else◌, ltb}
use celery_cnc.Base.Dict.{lookup}
use celery_cnc.Value.{Fields}
use celery_cnc.Schemas.{Datetime}
use celery_cnc.Rpc.Action.{
  Action, Result, map_result, ok, raised, Exception, validation_error, value_error, type_error,
  runtime_error, rpc_call_error,
}
use celery_cnc.Rpc.Controller.{BaseDbController}
use celery_cnc.Rpc.Messages.{RpcError, RpcRequestEnvelope, RpcResponseEnvelope, rpc_schema_version}
use celery_cnc.Rpc.Operations.{Op, rpc_operations, RequestOf, ResponseOf}
use celery_cnc.Rpc.Dispatch.{handler, SqliteEngine}
use celery_cnc.Rpc.Wire.{Wire}

abbrev pub is_validation_error : Exception → Bool
is_validation_error validation_error = true
is_validation_error value_error = false
is_validation_error type_error = false
is_validation_error runtime_error = false
is_validation_error (rpc_call_error code) = false

-- The code and message that an exception is answered by.
unfoldable pub code_of : Exception → String
code_of e = if is_validation_error e then "VALIDATION_ERROR" else "SERVER_ERROR"

unfoldable pub message_of : Exception → String
message_of e = if is_validation_error e then "Invalid RPC payload" else "RPC handler failed"

module _ {F S : Type 0} (W : Wire F) (controller : BaseDbController F S)
    (sqlite : Option (SqliteEngine S)) where
  open W use {
    Bytes, Payload, size, as_dict, validate_request, dump_response, read_request, write_response,
    can_write,
  }

  pub record Settings : Type 0 where
    pub rpc_max_message_bytes : ℕ
    pub rpc_max_inflight : ℕ
    pub now : Datetime
    -- `exc.errors()` of the message in hand
    pub errors : Fields

  unfoldable pub failure : Datetime → String → RpcError → RpcResponseEnvelope Payload
  failure now request_id error = record {
    request_id = request_id;
    ok = false;
    payload = none;
    error = some error;
    schema_version = rpc_schema_version;
    timestamp = some now;
  }

  -- `_error_response`
  unfoldable pub error_response : Settings → String → String → String → Bytes
  unfolding failure
  error_response c request_id code message =
      write_response
        (failure c.now request_id (record { code = code; message = message; details = none }))

  unfoldable pub error_answer : Settings → String → Exception → RpcResponseEnvelope Payload
  unfolding failure code_of message_of
  error_answer c request_id e = failure c.now request_id (record {
    code = code_of e;
    message = message_of e;
    details = if is_validation_error e then some c.errors else none;
  })

  abbrev pub details_of : Option RpcError → Option Fields
  details_of none = none
  details_of (some e) = e.details

  -- `none`: the details cannot be written as JSON, and the exception ends the connection's thread.
  abbrev pub written : RpcResponseEnvelope Payload → Option Bytes
  written r = if can_write (details_of r.error) then some (write_response r) else none

  -- `_handle_error`
  unfoldable pub handle_error : Settings → String → Exception → Option Bytes
  unfolding error_answer
  handle_error c request_id e = written (error_answer c request_id e)

  -- A response that has no JSON raises pydantic's `ValueError`.
  abbrev pub dumped : (op : Op) → Result (ResponseOf F op) → Result Payload
  dumped op (raised e) = raised e
  dumped op (ok response) = elim (dump_response op response) [
    | none ↦ raised value_error
    | some payload ↦ ok payload
  ]

  abbrev pub run_operation : (op : Op) → Option (RequestOf F op) → Action S Payload
  run_operation op none db = (raised validation_error, db)
  run_operation op (some request) db =
      let (result, stored) = handler controller sqlite op request db in (dumped op result, stored)

  -- `_handle_operation`: a payload that does not fit the model never reaches the handler.
  unfoldable pub handle_operation : Op → Option Payload → Action S Payload
  unfolding handler
  handle_operation op payload db = run_operation op (validate_request op (as_dict payload)) db

  unfoldable pub answer : Settings → String → Result Payload → RpcResponseEnvelope Payload
  unfolding error_answer
  answer c request_id (raised e) = error_answer c request_id e
  answer c request_id (ok payload) = record {
    request_id = request_id;
    ok = true;
    payload = some payload;
    error = none;
    schema_version = rpc_schema_version;
    timestamp = some c.now;
  }

  unfoldable pub respond : Settings → String → Result Payload → Option Bytes
  unfolding answer
  respond c request_id result = written (answer c request_id result)

  abbrev pub routed : Settings → RpcRequestEnvelope Payload → Option Op → S → Option Bytes × S
  unfolding error_response handle_operation respond
  routed c envelope none db = (
    some (
        error_response c envelope.request_id "OP_NOT_FOUND" ("Unknown operation: " <> envelope.op)),
    db,
  )
  routed c envelope (some op) db =
      let (result, stored) = handle_operation op envelope.payload db in
      (respond c envelope.request_id result, stored)

  -- The part of `_dispatch` after the envelope is read.
  unfoldable pub dispatch_envelope : Settings → RpcRequestEnvelope Payload → S → Option Bytes × S
  unfolding error_response routed lookup
  dispatch_envelope c envelope db =
      if not (envelope.schema_version == rpc_schema_version)
      then (
        some (
            error_response c envelope.request_id "SCHEMA_UNSUPPORTED"
              "Unsupported RPC schema version"),
        db,
      )
      else routed c envelope (lookup envelope.op rpc_operations) db

  abbrev pub dispatch_read :
      Settings → String → Option (RpcRequestEnvelope Payload) → S → Option Bytes × S
  unfolding handle_error dispatch_envelope
  dispatch_read c server_id none db = (handle_error c server_id validation_error, db)
  dispatch_read c server_id (some envelope) db = dispatch_envelope c envelope db

  unfoldable pub dispatch : Settings → String → Bytes → S → Option Bytes × S
  unfolding error_response dispatch_read
  dispatch c server_id message db =
      if ltb c.rpc_max_message_bytes (size message)
      then (
        some (
            error_response c server_id "MESSAGE_TOO_LARGE" "RPC request exceeded max message size"),
        db,
      )
      else dispatch_read c server_id (read_request message) db

  unfoldable pub busy : Settings → String → Bytes
  unfolding error_response
  busy c server_id = error_response c server_id "BUSY" "DB manager is busy"
