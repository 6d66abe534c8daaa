-- ===== src/Rf/Run.antt =====
-- rf/main.cc: the runs of the leader and of a follower.
use replication_protos.Prelude.{
  ℕ, zero, suc, ◌%◌, Option, some, List, [], ◌∷◌, ◌++◌, ◌==◌, if◌then◌else◌, ◌>>=◌,
}
use replication_protos.Rpc.{add_session}
use replication_protos.Batch.{init}
use replication_protos.Chain.Msg.{msg_size, batch_count}
use replication_protos.Rf.Node.{
  AppContext, Event, proposed, committed, prp_response, cmt_response, leader, follower, send_req,
  flash_batcher, cont_func_prp, cont_func_cmt, req_handler_prp, req_handler_cmt,
}

unfoldable pub dispatch : Event → AppContext → Option AppContext
dispatch (proposed b) ctx = req_handler_prp b ctx
dispatch (committed b) ctx = req_handler_cmt b ctx
dispatch (prp_response b) ctx = cont_func_prp b ctx
dispatch (cmt_response b) ctx = cont_func_cmt b ctx

unfoldable pub dispatch_all : List Event → AppContext → Option AppContext
dispatch_all [] ctx = some ctx
dispatch_all (e ∷ es) ctx = do ctx' ← dispatch e ctx; dispatch_all es ctx'

unfoldable pub run_event_loop :
    AppContext → List (List Event) → Option (AppContext × List (List Event))
run_event_loop ctx [] = some (ctx, [])
run_event_loop ctx (es ∷ rounds) = do ctx' ← dispatch_all es ctx; some (ctx', rounds)

unfoldable pub run_rounds :
    ℕ → AppContext → List (List Event) → Option (AppContext × List (List Event))
run_rounds zero ctx rounds = some (ctx, rounds)
run_rounds (suc n) ctx rounds = do
  (ctx', rounds') ← run_event_loop ctx rounds
  run_rounds n ctx' rounds'

unfoldable pub poll : AppContext → List (List Event) → Option (AppContext × List (List Event))
poll ctx rounds = do
  (ctx', rounds') ←
      (if ctx.enqueued_msgs_cnt % 2 == 0 then run_rounds 10 ctx rounds else some (ctx, rounds))
  if ctx'.enqueued_msgs_cnt % 2 == 10 then run_event_loop ctx' rounds' else some (ctx', rounds')

-- The loop `for (;;)` at the end, for as long as there are deliveries.
unfoldable pub drain : AppContext → List (List Event) → Option AppContext
drain ctx [] = some ctx
drain ctx (es ∷ rounds) = do ctx' ← dispatch_all es ctx; drain ctx' rounds

unfoldable pub create_session :
    ℕ → ℕ → AppContext → List (List Event) → Option (AppContext × List (List Event))
create_session session rem_node_id ctx rounds =
    run_event_loop (record ctx { connections = add_session rem_node_id session ctx.connections })
      rounds

-- The followers with the numbers of their sessions: one is added as soon as it is connected.
unfoldable pub connect_all :
    List (ℕ × ℕ) → AppContext → List (List Event) → Option (AppContext × List (List Event))
connect_all [] ctx rounds = some (ctx, rounds)
connect_all ((id, session) ∷ uris) ctx rounds = do
  (linked, rounds') ← create_session session id ctx rounds
  let metadata = record linked.metadata { followers = linked.metadata.followers ++ (id ∷ []) }
  connect_all uris (record linked { metadata = metadata }) rounds'

-- `left` more requests, from index `i` on.
unfoldable pub send_loop :
    ℕ → ℕ → AppContext → List (List Event) → Option (AppContext × List (List Event))
send_loop zero i ctx rounds = some (ctx, rounds)
send_loop (suc left) i ctx rounds = do
  sent ← send_req i ctx.metadata.followers ctx
  (ctx', rounds') ← poll sent rounds
  send_loop left (suc i) ctx' rounds'

unfoldable pub leader_func : ℕ → List (ℕ × ℕ) → AppContext → List (List Event) → Option AppContext
leader_func reqs_num uris ctx rounds = do
  (linked, r1) ← connect_all uris ctx rounds
  (started, r2) ← run_event_loop linked r1
  (sent, r3) ← send_loop reqs_num 0 started r2
  flashed ← flash_batcher sent.metadata.followers sent
  drain flashed r3

unfoldable pub poll_loop :
    ℕ → AppContext → List (List Event) → Option (AppContext × List (List Event))
poll_loop zero ctx rounds = some (ctx, rounds)
poll_loop (suc left) ctx rounds = do (ctx', rounds') ← poll ctx rounds; poll_loop left ctx' rounds'

unfoldable pub follower_func : ℕ → ℕ → AppContext → List (List Event) → Option AppContext
follower_func reqs_num session ctx rounds = do
  (linked, r1) ← create_session session leader ctx rounds
  (started, r2) ← run_event_loop linked r1
  (polled, r3) ← poll_loop reqs_num started r2
  drain polled r3

-- The context that `proto_func` makes, and its branch of the process id.
unfoldable pub new_context : ℕ → ℕ → AppContext
new_context process_id instance = record {
  node_id = process_id;
  instance_id = instance;
  batcher = init batch_count msg_size;
  metadata = record {
    leader = follower;
    cmt_idx = 0;
    prp_idx = 0;
    followers = [];
    prp_acks = [];
    cmt_acks = [];
  };
  enqueued_msgs_cnt = 0;
  connections = [];
  prp_count = 0;
  cmt_count = 0;
  prp_acked = 0;
  cmt_acked = 0;
  trace = [];
}

unfoldable pub proto_func : ℕ → ℕ → ℕ → ℕ × ℕ → List (List Event) → Option AppContext
proto_func reqs_num process_id thread_id (s1, s2) rounds =
    let ctx = new_context process_id thread_id in
    if process_id == leader
    then leader_func reqs_num ((1, s1) ∷ (2, s2) ∷ []) ctx rounds
    else follower_func reqs_num s1 ctx rounds
