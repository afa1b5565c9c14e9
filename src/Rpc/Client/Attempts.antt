-- ===== src/Rpc/Client/Attempts.antt =====
-- What comes of a request whose attempts fail, or that is answered under another id.
use celery_cnc.Base.{
  ℕ, zero, suc, ◌+◌, ◌≤◌, ◌≡◌, ◌≢◌, ap, refl, String, Option, none, some, arith, string_eq, nat_eq,
  ltb, inl, inr, Bool-cases,
}
use celery_cnc.Schemas.{Datetime}
use celery_cnc.Rpc.Action.{Result, raised, runtime_error}
use celery_cnc.Rpc.Controller.{BaseDbController}
use celery_cnc.Rpc.Messages.{RpcResponseEnvelope}
use celery_cnc.Rpc.Operations.{Op, RequestOf}
use celery_cnc.Rpc.Dispatch.{SqliteEngine}
use celery_cnc.Rpc.Wire.{Wire}
use celery_cnc.Rpc.Server.{Settings, busy, error_response, failure}
use celery_cnc.Rpc.Client.{
  Transport, received, judged, or_again, check_response, attempts_loop, request, request_envelope,
  call, then_read,
}
use celery_cnc.Rpc.Client.Exchange.{request-judged, not_over}

module _ {F N : Type 0} (W : Wire F) where
  -- The transport with a count of its exchanges.
  pub counted : Transport F N W → Transport F (ℕ × N) W
  counted t = record {
    max_message_bytes = t.max_message_bytes;
    client_name = t.client_name;
    new_request_id = λ (k, net). t.new_request_id net;
    now = λ (k, net). t.now net;
    exchange =
        λ bytes (k, net). let (reply, after) = t.exchange bytes net in (reply, (suc k, after));
  }

  or_again_count :
      (j : Option (Result (RpcResponseEnvelope W.Payload))) (k n : ℕ) (net : N)
      → (again : Result (RpcResponseEnvelope W.Payload) × (ℕ × N)) → again.1.0 ≤ suc k + n
      → (or_again {N = ℕ × N} W j (suc k, net) again).1.0 ≤ k + suc n
  or_again_count none k n net again h = omega (arith, h)
  or_again_count (some r) k n net again h = omega arith

  attempts_loop-count :
      (t : Transport F N W) (attempts : ℕ) (request_id : String) (bytes : W.Bytes) (k : ℕ) (net : N)
      → (attempts_loop W (counted t) attempts request_id bytes (k, net)).1.0 ≤ k + attempts
  unfolding attempts_loop counted
  attempts_loop-count t zero request_id bytes k net = omega arith
  attempts_loop-count t (suc attempts) request_id bytes k net =
      let (reply, after) = t.exchange bytes net in
      or_again_count (judged W (counted t) request_id reply) k attempts after
        (attempts_loop W (counted t) attempts request_id bytes (suc k, after))
        (attempts_loop-count t attempts request_id bytes (suc k) after)

  -- A request is over after at most one exchange more than its retries.
  pub request-count :
      (t : Transport F N W) (max_retries : ℕ) (request_id : String) (now : Datetime) (op : Op)
      (p : W.Payload) (k : ℕ) (net : N)
      → (request W (counted t) max_retries request_id now op p (k, net)).1.0 ≤ k + suc max_retries
  unfolding request request_envelope counted
  request-count t max_retries request_id now op p k net =
      elim (Bool-cases (
        ltb t.max_message_bytes
          (W.size (W.write_request (request_envelope W (counted t) request_id now op p))))) [
            | inl over ↦ rw over (omega arith)
            | inr fits ↦ rw fits (
                attempts_loop-count t (suc max_retries) request_id
                  (W.write_request (request_envelope W (counted t) request_id now op p)) k net)
          ]

  check_response-other_id :
      (t : Transport F N W) (id : String) (bytes : W.Bytes) (r : RpcResponseEnvelope W.Payload)
      → W.size bytes ≤ t.max_message_bytes
      → W.read_response bytes ≡ some r
      → r.request_id ≢ id
      → check_response W t id bytes ≡ some (raised runtime_error)
  unfolding check_response
  check_response-other_id t id bytes r fits reads n = ground (arith, not_over _ _ fits)

module _ {F S N : Type 0} (W : Wire F) (controller : BaseDbController F S)
    (sqlite : Option (SqliteEngine S)) (c : Settings W controller sqlite) where
  -- A busy server answers under an id that it makes up, so its client raises a `RuntimeError` about the id
  -- and not the `RpcCallError` with the code BUSY: for a request that fits, answered once.
  pub call-busy :
      (t : Transport F N W) (server_id : String) (op : Op) (r : RequestOf F op) (net net' : N)
      → W.size (
          W.write_request
            (request_envelope W t (t.new_request_id net) (t.now net) op (W.dump_request op r)))
        ≤ t.max_message_bytes
      → W.size (busy W controller sqlite c server_id) ≤ t.max_message_bytes
      → server_id ≢ t.new_request_id net
      → t.exchange
          (W.write_request
            (request_envelope W t (t.new_request_id net) (t.now net) op (W.dump_request op r)))
          net
        ≡ (received (busy W controller sqlite c server_id), net')
      → call W t op r net ≡ (raised runtime_error, net')
  unfolding call busy error_response failure
  call-busy t server_id op r net net' sent fits other answered =
      ap {A = Result (RpcResponseEnvelope W.Payload) × N} (λ x. (then_read W op x.0, x.1))
        (request-judged W t (t.new_request_id net) (t.now net) op (W.dump_request op r) net net'
          (not_over _ _ sent) answered
          (check_response-other_id W t (t.new_request_id net) (busy W controller sqlite c server_id)
            _ fits (W.read-write_error _ _ refl refl W.no_details) other))
