-- ===== src/Rpc/Client.antt =====
-- celery_root/core/db/rpc_client.py: the transport of one request, and the methods of the client.
pub mod Exchange
pub mod Methods
pub mod Attempts
use celery_cnc.Base.{ℕ, zero, suc, String, Bool, true, false, not, ◌||◌, Option, none, some}
use celery_cnc.Base.{◌==◌, string_eq, nat_eq, if◌then◌else◌, ltb}
use celery_cnc.Schemas.{Datetime}
use celery_cnc.Rpc.Action.{
  Action, Result, ok, raised, Exception, validation_error, value_error, runtime_error,
  rpc_call_error, pure, raise,
}
use celery_cnc.Rpc.Messages.{RpcError, RpcRequestEnvelope, RpcResponseEnvelope, rpc_schema_version}
use celery_cnc.Rpc.Operations.{Op, op_name, RequestOf, ResponseOf}
use celery_cnc.Rpc.Wire.{Wire}

-- What comes of one attempt: the connection fails or is closed, nothing arrives in time, or bytes do.
pub data Reply (B : Type 0) : Type 0 where
  failed : Reply B
  timed_out : Reply B
  received : B → Reply B

abbrev pub code_or_unknown : Option RpcError → String
code_or_unknown none = "UNKNOWN"
code_or_unknown (some error) = error.code

abbrev pub validated : {A : Type 0} → Option A → Result A
validated none = raised validation_error
validated (some a) = ok a

module _ {F : Type 0} (W : Wire F) where
  open W use {Payload, validate_response, default_response}

  -- The end of `_call`.
  unfoldable pub read_reply : (op : Op) → RpcResponseEnvelope Payload → Result (ResponseOf F op)
  read_reply op response =
      if not response.ok
      then raised (rpc_call_error (code_or_unknown response.error))
      else elim response.payload [
        | none ↦ validated (default_response op)
        | some payload ↦ validated (validate_response op payload)
      ]

  abbrev pub then_read : (op : Op) → Result (RpcResponseEnvelope Payload) → Result (ResponseOf F op)
  then_read op (ok response) = read_reply op response
  then_read op (raised e) = raised e

-- `exchange` connects where there is no connection, sends the bytes and waits for an answer.
pub record Transport (F N : Type 0) (W : Wire F) : Type 0 where
  pub max_message_bytes : ℕ
  pub client_name : Option String
  -- `uuid4().hex` and the clock.
  pub new_request_id : N → String
  pub now : N → Datetime
  pub exchange : W.Bytes → N → Reply W.Bytes × N

module _ {F N : Type 0} (W : Wire F) where
  open W use {Bytes, Payload, size, dump_request, write_request, read_response}

  -- The checks of a response; `none`: the attempt counts as failed.
  unfoldable pub check_response :
      Transport F N W → String → Bytes → Option (Result (RpcResponseEnvelope Payload))
  check_response t request_id bytes =
      if ltb t.max_message_bytes (size bytes)
      then some (raised value_error)
      else elim (read_response bytes) [
        | none ↦ none
        | some response ↦
            if not (response.schema_version == rpc_schema_version)
              || not (response.request_id == request_id)
            then some (raised runtime_error)
            else some (ok response)
      ]

  abbrev pub judged :
      Transport F N W → String → Reply Bytes → Option (Result (RpcResponseEnvelope Payload))
  judged t request_id failed = none
  judged t request_id timed_out = none
  judged t request_id (received bytes) = check_response t request_id bytes

  abbrev pub or_again :
      Option (Result (RpcResponseEnvelope Payload))
      → N
      → Result (RpcResponseEnvelope Payload) × N
      → Result (RpcResponseEnvelope Payload) × N
  or_again none after again = again
  or_again (some result) after again = (result, after)

  -- The loop over the attempts.
  unfoldable pub attempts_loop :
      Transport F N W → ℕ → String → Bytes → Action N (RpcResponseEnvelope Payload)
  unfolding check_response
  attempts_loop t zero request_id bytes net = (raised runtime_error, net)
  attempts_loop t (suc attempts) request_id bytes net =
      let (reply, after) = t.exchange bytes net in
      let again = attempts_loop t attempts request_id bytes after in
      or_again (judged t request_id reply) after again

  unfoldable pub request_envelope :
      Transport F N W → String → Datetime → Op → Payload → RpcRequestEnvelope Payload
  request_envelope t request_id now op payload = record {
    request_id = request_id;
    op = op_name op;
    payload = some payload;
    schema_version = rpc_schema_version;
    timestamp = some now;
    client = t.client_name;
    trace = none;
  }

  unfoldable pub request :
      Transport F N W
      → ℕ
      → String
      → Datetime
      → Op
      → Payload
      → Action N (RpcResponseEnvelope Payload)
  unfolding request_envelope attempts_loop
  request t max_retries request_id now op payload net =
      let bytes = write_request (request_envelope t request_id now op payload) in
      if ltb t.max_message_bytes (size bytes)
      then (raised value_error, net)
      else attempts_loop t (suc max_retries) request_id bytes net

  -- `_call`, which every method calls without retries.
  unfoldable pub call : Transport F N W → (op : Op) → RequestOf F op → Action N (ResponseOf F op)
  unfolding request read_reply
  call t op r net =
      let (result, after) =
        request t 0 (t.new_request_id net) (t.now net) op (dump_request op r) net in
      (then_read W op result, after)
