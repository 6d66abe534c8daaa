-- ===== src/Alc/Run.antt =====
-- alc/main.cc: the runs of the three nodes, laid out as for the other protocols: `rounds` lists what each
-- run of the event loop delivers.
use replication_protos.Prelude.{
  ℕ, zero, suc, ◌%◌, Option, some, List, [], ◌∷◌, ◌++◌, ◌==◌, if◌then◌else◌, ◌>>=◌, Bytes,
  minus_one,
}
use replication_protos.Rpc.{add_session}
use replication_protos.Alc.Node.{
  AppContext, Event, batch_sent, committed, send_response, cmt_response, init, cont_func_cmt,
  cont_func_send, req_handler_send, req_handler_cmt, send_req, flash_batcher,
}

-- `kdonna_id`, `kmartha_id` and `krose_id`.
abbrev pub donna_id : ℕ
donna_id = 0

abbrev pub martha_id : ℕ
martha_id = 1

abbrev pub rose_id : ℕ
rose_id = 2

unfoldable pub dispatch : Event → AppContext → Option AppContext
dispatch (batch_sent b) ctx = req_handler_send b ctx
dispatch (committed b) ctx = req_handler_cmt b ctx
dispatch (send_response b) ctx = cont_func_send b ctx
dispatch (cmt_response b) ctx = cont_func_cmt b ctx

unfoldable pub dispatch_all : List Event → AppContext → Option AppContext
dispatch_all [] ctx = some ctx
dispatch_all (e ∷ es) ctx = do ctx' ← dispatch e ctx; dispatch_all es ctx'

unfoldable pub run_event_loop :
    AppContext → List (List Event) → Option (AppContext × List (List Event))
run_event_loop ctx [] = some (ctx, [])
run_event_loop ctx (es ∷ rounds) = do ctx' ← dispatch_all es ctx; some (ctx', rounds)

unfoldable pub run_rounds :
    ℕ → AppContext → List (List Event) → Option (AppContext × List (List Event))
run_rounds zero ctx rounds = some (ctx, rounds)
run_rounds (suc n) ctx rounds = do
  (ctx', rounds') ← run_event_loop ctx rounds
  run_rounds n ctx' rounds'

unfoldable pub poll : AppContext → List (List Event) → Option (AppContext × List (List Event))
poll ctx rounds = do
  (ctx', rounds') ←
      (if ctx.enqueued_msgs_cnt % 2 == 0 then run_rounds 10 ctx rounds else some (ctx, rounds))
  if ctx'.enqueued_msgs_cnt % 2 == 10 then run_event_loop ctx' rounds' else some (ctx', rounds')

-- The loop `for (;;)` at the end, for as long as there are deliveries.
unfoldable pub drain : AppContext → List (List Event) → Option AppContext
drain ctx [] = some ctx
drain ctx (es ∷ rounds) = do ctx' ← dispatch_all es ctx; drain ctx' rounds

unfoldable pub create_session :
    ℕ → ℕ → AppContext → List (List Event) → Option (AppContext × List (List Event))
create_session session rem_node_id ctx rounds =
    run_event_loop (record ctx { connections = add_session rem_node_id session ctx.connections })
      rounds

-- The other nodes with the numbers of their sessions: one is added as soon as it is connected.
unfoldable pub connect_all :
    List (ℕ × ℕ) → AppContext → List (List Event) → Option (AppContext × List (List Event))
connect_all [] ctx rounds = some (ctx, rounds)
connect_all ((id, session) ∷ uris) ctx rounds = do
  (linked, rounds') ← create_session session id ctx rounds
  let metadata = record linked.metadata { followers = linked.metadata.followers ++ (id ∷ []) }
  connect_all uris (record linked { metadata = metadata }) rounds'

module _ (tail : ℕ → ℕ → Bytes) where
  -- `left` more requests, from index `i` on.
  unfoldable pub send_loop :
      ℕ → ℕ → AppContext → List (List Event) → Option (AppContext × List (List Event))
  send_loop zero i ctx rounds = some (ctx, rounds)
  send_loop (suc left) i ctx rounds = do
    sent ← send_req tail i ctx.metadata.followers ctx
    (ctx', rounds') ← poll sent rounds
    send_loop left (suc i) ctx' rounds'

  unfoldable pub leader_func : ℕ → List (ℕ × ℕ) → AppContext → List (List Event) → Option AppContext
  leader_func reqs_num uris ctx rounds = do
    (linked, r1) ← connect_all uris ctx rounds
    (started, r2) ← run_event_loop linked r1
    (sent, r3) ← send_loop reqs_num 0 started r2
    flashed ← flash_batcher tail sent.metadata.followers sent
    drain flashed r3

unfoldable pub new_context : ℕ → ℕ → AppContext
new_context process_id thread_id = record {
  node_id = process_id;
  instance_id = thread_id;
  batcher = init;
  metadata = record { cmt_rd = minus_one; cur_rd = 0; followers = []; proto_meta = [] };
  enqueued_msgs_cnt = 0;
  connections = [];
  trace = [];
}

-- A process of another number does nothing.
unfoldable pub proto_func :
    (ℕ → ℕ → Bytes) → ℕ → ℕ → ℕ → ℕ × ℕ → List (List Event) → Option AppContext
proto_func tail reqs_num process_id thread_id (s1, s2) rounds =
    let ctx = new_context process_id thread_id in
    if process_id == donna_id
    then leader_func tail reqs_num ((martha_id, s1) ∷ (rose_id, s2) ∷ []) ctx rounds
    else if process_id == rose_id
    then leader_func tail reqs_num ((martha_id, s1) ∷ (donna_id, s2) ∷ []) ctx rounds
    else if process_id == martha_id
    then leader_func tail reqs_num ((donna_id, s1) ∷ (rose_id, s2) ∷ []) ctx rounds
    else some ctx
