-- ===== src/Rpc/Client/Exchange.antt =====
-- A call over a server is the handler of its operation.
use celery_cnc.Base.{
  subst, arith, ◌≤◌, ℕ, ◌≡◌, refl, ap, ◌∙◌, String, true, false, Option, none, some,
}
use celery_cnc.Base.{string_eq, nat_eq, ltb, if◌then◌else◌}
use celery_cnc.Base.Dict.{lookup}
use celery_cnc.Schemas.{Datetime}
use celery_cnc.Rpc.Action.{
  Exception, value_error, runtime_error, Result, ok, raised, rpc_call_error,
}
use celery_cnc.Rpc.Controller.{BaseDbController}
use celery_cnc.Rpc.Messages.{RpcRequestEnvelope, RpcResponseEnvelope, rpc_schema_version}
use celery_cnc.Rpc.Operations.{
  ping_op, schema_version_op, schema_op, info_op, raw_query_op, ingest_task_event_op,
  ingest_worker_event_op, ingest_broker_queue_event_op, broker_queue_snapshot_op,
  worker_event_snapshot_op, store_relation_op, list_tasks_op, list_tasks_page_op,
  list_task_names_op, get_task_op, list_relations_op, list_workers_op, get_worker_op, task_stats_op,
  throughput_op, state_distribution_op, heatmap_op, list_schedules_op, store_schedule_op,
  delete_schedule_op, cleanup_op, Op, op_name, rpc_operations, RequestOf, ResponseOf,
}
use celery_cnc.Rpc.Dispatch.{handler, SqliteEngine}
use celery_cnc.Rpc.Wire.{Wire}
use celery_cnc.Rpc.Server.{
  Settings, error_response, routed, dispatch_read, run_operation, code_of, answer, respond, dumped,
  error_answer, failure, is_validation_error, handle_operation, dispatch_envelope, dispatch,
}
use celery_cnc.Rpc.Client.{
  or_again, Transport, validated, Reply, failed, received, check_response, request_envelope,
  request, attempts_loop, read_reply, then_read, call, judged,
}

-- Every operation is found under the name that the client sends.
pub lookup-op_name : (op : Op) → lookup (op_name op) rpc_operations ≡ some op
unfolding lookup string_eq
lookup-op_name ping_op = refl
lookup-op_name schema_version_op = refl
lookup-op_name schema_op = refl
lookup-op_name info_op = refl
lookup-op_name raw_query_op = refl
lookup-op_name ingest_task_event_op = refl
lookup-op_name ingest_worker_event_op = refl
lookup-op_name ingest_broker_queue_event_op = refl
lookup-op_name broker_queue_snapshot_op = refl
lookup-op_name worker_event_snapshot_op = refl
lookup-op_name store_relation_op = refl
lookup-op_name list_tasks_op = refl
lookup-op_name list_tasks_page_op = refl
lookup-op_name list_task_names_op = refl
lookup-op_name get_task_op = refl
lookup-op_name list_relations_op = refl
lookup-op_name list_workers_op = refl
lookup-op_name get_worker_op = refl
lookup-op_name task_stats_op = refl
lookup-op_name throughput_op = refl
lookup-op_name state_distribution_op = refl
lookup-op_name heatmap_op = refl
lookup-op_name list_schedules_op = refl
lookup-op_name store_schedule_op = refl
lookup-op_name delete_schedule_op = refl
lookup-op_name cleanup_op = refl

-- An exception reaches the client by its code alone.
abbrev pub seen : {A : Type 0} → Result A → Result A
seen (ok a) = ok a
seen (raised e) = raised (rpc_call_error (code_of e))

pub not_over : (a b : ℕ) → a ≤ b → ltb b a ≡ false
not_over a b h = ground arith

-- A first attempt that is judged ends the request.
pub request-judged :
    {F N : Type 0} (W : Wire F) (t : Transport F N W) (id : String) (now : Datetime) (op : Op)
    (p : W.Payload) (net net' : N) {reply : Reply W.Bytes}
    {result : Result (RpcResponseEnvelope W.Payload)}
    → ltb t.max_message_bytes (W.size (W.write_request (request_envelope W t id now op p))) ≡ false
    → t.exchange (W.write_request (request_envelope W t id now op p)) net ≡ (reply, net')
    → judged W t id reply ≡ some result
    → request W t 0 id now op p net ≡ (result, net')
unfolding request attempts_loop
request-judged {N = N} W t id now op p net net' sent answered judged_as =
    let bytes : W.Bytes = W.write_request (request_envelope W t id now op p) in
    ap (λ b. if b then (raised value_error, net) else attempts_loop W t 1 id bytes net) sent
    ∙ ap {A = Reply W.Bytes × N}
        (λ x. or_again W (judged W t id x.0) x.1 (raised runtime_error, x.1)) answered
    ∙ ap (λ j. or_again W j net' (raised runtime_error, net')) judged_as

module _ {F S : Type 0} (W : Wire F) (controller : BaseDbController F S)
    (sqlite : Option (SqliteEngine S)) (c : Settings W controller sqlite) where
  -- A request comes out of its JSON as it was.
  abbrev pub RequestIsKept : (op : Op) → RequestOf F op → Type 0
  RequestIsKept op r =
      W.validate_request op (W.as_dict (some (W.reread (W.dump_request op r)))) ≡ some r

  -- A result can be answered: a response has a JSON and comes out of it as it was, and the details of an
  -- exception, if any, have one.
  abbrev pub IsKept : (op : Op) → Result (ResponseOf F op) → Type 0
  IsKept op (ok a) =
      (p : W.Payload) × (W.dump_response op a ≡ some p)
      × (W.validate_response op (W.reread p) ≡ some a)
  IsKept op (raised e) = W.can_write (if is_validation_error e then some c.errors else none) ≡ true

  abbrev pub FitsIn : ℕ → Option W.Bytes → Type 0
  FitsIn n none = Unit {0}
  FitsIn n (some bytes) = W.size bytes ≤ n

  -- A thread that ends closes its connection.
  abbrev pub arrived : Option W.Bytes → Reply W.Bytes
  arrived none = failed
  arrived (some bytes) = received bytes

  handle_operation-kept :
      (op : Op) (r : RequestOf F op) (db : S)
      → RequestIsKept op r
      → handle_operation W controller sqlite op (some (W.reread (W.dump_request op r))) db ≡ (
        dumped W controller sqlite op (handler controller sqlite op r db).0,
        (handler controller sqlite op r db).1,
      )
  unfolding handle_operation
  handle_operation-kept op r db kept = ap (λ v. run_operation W controller sqlite op v db) kept

  -- The transport of a client to this server, over a connection that does not fail by itself.
  unfoldable pub linked : String → Transport F S W → Transport F S W
  unfolding dispatch
  linked server_id t = record t {
    exchange = λ bytes db.
        let (reply, stored) = dispatch W controller sqlite c server_id bytes db in
        (arrived reply, stored);
  }

  dispatch-request_envelope :
      (t : Transport F S W) (id : String) (now : Datetime) (op : Op) (r : RequestOf F op)
      (server_id : String) (db : S)
      → RequestIsKept op r
      → ltb c.rpc_max_message_bytes
          (W.size (W.write_request (request_envelope W t id now op (W.dump_request op r))))
        ≡ false
      → dispatch W controller sqlite c server_id
          (W.write_request (request_envelope W t id now op (W.dump_request op r)))
          db
        ≡ (
          respond W controller sqlite c id
              (dumped W controller sqlite op (handler controller sqlite op r db).0),
          (handler controller sqlite op r db).1,
        )
  unfolding dispatch dispatch_envelope nat_eq request_envelope
  dispatch-request_envelope t id now op r server_id db kept fits =
      let p : W.Payload = W.dump_request op r in
      let e : RpcRequestEnvelope W.Payload = request_envelope W t id now op p in
      let got : RpcRequestEnvelope W.Payload = request_envelope W t id now op (W.reread p) in
      let message : W.Bytes = W.write_request e in
      ap
        (λ b.
          if b
          then (
            some (
                error_response W controller sqlite c server_id "MESSAGE_TOO_LARGE"
                  "RPC request exceeded max message size"),
            db,
          )
          else dispatch_read W controller sqlite c server_id (W.read_request message) db)
        fits
      ∙ ap (λ m. dispatch_read W controller sqlite c server_id m db) (W.read-write_request e p refl)
      ∙ ap (λ o. routed W controller sqlite c got o db) (lookup-op_name op)
      ∙ ap {A = Result W.Payload × S} (λ x. (respond W controller sqlite c id x.0, x.1))
          (handle_operation-kept op r db kept)

  check_response-read :
      (t : Transport F S W) (id : String) (bytes : W.Bytes) (r : RpcResponseEnvelope W.Payload)
      → W.size bytes ≤ t.max_message_bytes
      → W.read_response bytes ≡ some r
      → r.request_id ≡ id
      → r.schema_version ≡ rpc_schema_version
      → check_response W t id bytes ≡ some (ok r)
  unfolding check_response
  check_response-read t id bytes r fits reads same version = ground (arith, not_over _ _ fits)

  judged-some :
      (t : Transport F S W) (id : String) (o : Option W.Bytes) (bytes : W.Bytes)
      (r : RpcResponseEnvelope W.Payload)
      → o ≡ some bytes
      → FitsIn t.max_message_bytes o
      → W.read_response bytes ≡ some r
      → r.request_id ≡ id
      → r.schema_version ≡ rpc_schema_version
      → judged W t id (arrived o) ≡ some (ok r)
  judged-some t id o bytes r e fits reads same version =
      ap (λ o. judged W t id (arrived o)) e
      ∙ check_response-read t id bytes r (subst (FitsIn t.max_message_bytes) e fits) reads same
          version

  respond-ok :
      (id : String) (op : Op) (a : ResponseOf F op) (p : W.Payload)
      → W.dump_response op a ≡ some p
      → respond W controller sqlite c id (dumped W controller sqlite op (ok a))
        ≡ some (W.write_response (answer W controller sqlite c id (ok p)))
  unfolding respond answer
  respond-ok id op a p d =
      ap
        (λ o.
          respond W controller sqlite c id
            (elim o [ none ↦ raised value_error | some payload ↦ ok payload ]))
        d
      ∙ ap
          (λ b.
            if b then some (W.write_response (answer W controller sqlite c id (ok p))) else none)
          W.no_details

  respond-raised :
      (id : String) (op : Op) (e : Exception)
      → W.can_write (if is_validation_error e then some c.errors else none) ≡ true
      → respond W controller sqlite c id (dumped W controller sqlite op (raised e))
        ≡ some (W.write_response (error_answer W controller sqlite c id e))
  unfolding respond answer error_answer failure
  respond-raised id op e can =
      ap
        (λ b. if b then some (W.write_response (error_answer W controller sqlite c id e)) else none)
        can

  -- The answer to a result, as the client judges and reads it.
  judged-respond :
      (t : Transport F S W) (id : String) (op : Op) (x : Result (ResponseOf F op))
      → IsKept op x
      → FitsIn t.max_message_bytes
          (respond W controller sqlite c id (dumped W controller sqlite op x))
      → (r : RpcResponseEnvelope W.Payload) × (judged W t id
            (arrived (respond W controller sqlite c id (dumped W controller sqlite op x)))
          ≡ some (ok r))
        × (read_reply W op r ≡ seen x)
  unfolding answer error_answer failure read_reply
  judged-respond t id op (ok a) (p, d, v) fits = (
    _,
    judged-some t id _ _ _ (respond-ok id op a p d) fits (W.read-write_payload _ p refl refl) refl
        refl,
    ap validated v,
  )
  judged-respond t id op (raised e) can fits = (
    _,
    judged-some t id _ _ _ (respond-raised id op e can) fits (W.read-write_error _ _ refl refl can)
        refl refl,
    refl,
  )

  -- The request fits both ends and its response the client's, and what they carry has a JSON that keeps
  -- it.
  pub record Fits (t : Transport F S W) (op : Op) (r : RequestOf F op) (db : S) : Type 0 where
    pub request_kept : RequestIsKept op r
    pub result_kept : IsKept op (handler controller sqlite op r db).0
    pub sent :
        W.size (
          W.write_request
            (request_envelope W t (t.new_request_id db) (t.now db) op (W.dump_request op r)))
        ≤ t.max_message_bytes
    pub accepted :
        W.size (
          W.write_request
            (request_envelope W t (t.new_request_id db) (t.now db) op (W.dump_request op r)))
        ≤ c.rpc_max_message_bytes
    pub answered : FitsIn t.max_message_bytes (
        respond W controller sqlite c
          (t.new_request_id db)
          (dumped W controller sqlite op (handler controller sqlite op r db).0))

  -- A call whose messages fit and whose request and result have a JSON that keeps them is the operation's
  -- handler, on the server's database: the same result, the same writes, and an exception as an
  -- `RpcCallError` with its code.
  pub call-handler :
      (server_id : String) (t : Transport F S W) (op : Op) (r : RequestOf F op) (db : S)
      → Fits t op r db
      → call W (linked server_id t) op r db
        ≡ (seen (handler controller sqlite op r db).0, (handler controller sqlite op r db).1)
  unfolding call linked request_envelope
  call-handler server_id t op r db f =
      let l : Transport F S W = linked server_id t in
      let id : String = t.new_request_id db in
      let now : Datetime = t.now db in
      let (result, stored) = handler controller sqlite op r db in
      let (reply, judged_as, reads) = judged-respond l id op result f.result_kept f.answered in
      ap {A = Result (RpcResponseEnvelope W.Payload) × S} (λ x. (then_read W op x.0, x.1))
        (request-judged W l id now op (W.dump_request op r) db stored (not_over _ _ f.sent)
          (ap {A = Option W.Bytes × S} (λ x. (arrived x.0, x.1))
            (dispatch-request_envelope l id now op r server_id db f.request_kept
              (not_over _ _ f.accepted)))
          judged_as)
      ∙ ap (λ x. (x, stored)) reads
