-- ===== src/Rpc/Wire.antt =====
-- What a message is on the wire: the JSON of its model, which pydantic writes and checks.
use celery_cnc.Base.{ℕ, ◌≡◌, Bool, true, Option, none, some}
use celery_cnc.Value.{Fields}
use celery_cnc.Rpc.Messages.{RpcError, RpcRequestEnvelope, RpcResponseEnvelope}
use celery_cnc.Rpc.Operations.{Op, RequestOf, ResponseOf}

-- Where a read or a check comes to `none`, it raises `ValidationError`. A message that is written is
-- read back with its own fields, but what it carries only as JSON keeps it: a tuple becomes a list.
pub record Wire (F : Type 0) : Type 1 where
  pub Bytes : Type 0
  pub size : Bytes → ℕ
  pub Payload : Type 0
  -- `payload if isinstance(payload, dict) else {}`
  pub as_dict : Option Payload → Payload
  pub dump_request : (op : Op) → RequestOf F op → Payload
  pub validate_request : (op : Op) → Payload → Option (RequestOf F op)
  -- `none`: a value that has no JSON; pydantic raises an error.
  pub dump_response : (op : Op) → ResponseOf F op → Option Payload
  pub validate_response : (op : Op) → Payload → Option (ResponseOf F op)
  -- `response_model()`
  pub default_response : (op : Op) → Option (ResponseOf F op)
  pub write_request : RpcRequestEnvelope Payload → Bytes
  pub read_request : Bytes → Option (RpcRequestEnvelope Payload)
  pub write_response : RpcResponseEnvelope Payload → Bytes
  pub read_response : Bytes → Option (RpcResponseEnvelope Payload)
  -- Whether the details of an error can be written at all, and what payloads and details are once they
  -- were written and read.
  pub can_write : Option Fields → Bool
  pub reread_details : Option Fields → Option Fields
  pub reread : Payload → Payload
  pub no_details : can_write none ≡ true
  pub read-write_request :
      (e : RpcRequestEnvelope Payload) (p : Payload)
      → e.payload ≡ some p
      → read_request (write_request e)
        ≡ some (record {
          request_id = e.request_id;
          op = e.op;
          payload = some (reread p);
          schema_version = e.schema_version;
          timestamp = e.timestamp;
          client = e.client;
          trace = e.trace;
        })
  pub read-write_error :
      (r : RpcResponseEnvelope Payload) (e : RpcError)
      → r.payload ≡ none
      → r.error ≡ some e
      → can_write e.details ≡ true
      → read_response (write_response r)
        ≡ some (record {
          request_id = r.request_id;
          ok = r.ok;
          payload = none;
          error =
              some
                (record { code = e.code; message = e.message; details = reread_details e.details });
          schema_version = r.schema_version;
          timestamp = r.timestamp;
        })
  pub read-write_payload :
      (r : RpcResponseEnvelope Payload) (p : Payload)
      → r.payload ≡ some p
      → r.error ≡ none
      → read_response (write_response r)
        ≡ some (record {
          request_id = r.request_id;
          ok = r.ok;
          payload = some (reread p);
          error = none;
          schema_version = r.schema_version;
          timestamp = r.timestamp;
        })
