-- ===== src/Chain/Run.antt =====
-- cr/main.cc: the runs of the three roles.
use replication_protos.Prelude.{
  ℕ, zero, suc, ◌%◌, Option, some, List, [], ◌∷◌, ◌==◌, if◌then◌else◌, ◌>>=◌,
}
use replication_protos.Rpc.{add_session}
use replication_protos.Batch.{init}
use replication_protos.Chain.Msg.{msg_size, batch_count}
use replication_protos.Chain.Node.{
  head, middle, tail, AppContext, Event, cont_func, send_req, flash_batcher, req_handler_fw,
  req_handler_cmt, forwarded, committed, completed,
}

unfoldable pub dispatch : Event → AppContext → Option AppContext
dispatch (forwarded b) ctx = req_handler_fw b ctx
dispatch (committed b) ctx = some (req_handler_cmt b ctx)
dispatch completed ctx = some (cont_func ctx)

unfoldable pub dispatch_all : List Event → AppContext → Option AppContext
dispatch_all [] ctx = some ctx
dispatch_all (e ∷ es) ctx = do ctx' ← dispatch e ctx; dispatch_all es ctx'

-- One run of the event loop, and `n` of them.
unfoldable pub run_event_loop :
    AppContext → List (List Event) → Option (AppContext × List (List Event))
run_event_loop ctx [] = some (ctx, [])
run_event_loop ctx (es ∷ rounds) = do ctx' ← dispatch_all es ctx; some (ctx', rounds)

unfoldable pub run_rounds :
    ℕ → AppContext → List (List Event) → Option (AppContext × List (List Event))
unfolding run_event_loop
run_rounds zero ctx rounds = some (ctx, rounds)
run_rounds (suc n) ctx rounds = do
  (ctx', rounds') ← run_event_loop ctx rounds
  run_rounds n ctx' rounds'

-- `n % 2 == 10` never holds, so after an odd number of batches the event loop is not run.
unfoldable pub poll : AppContext → List (List Event) → Option (AppContext × List (List Event))
unfolding run_rounds run_event_loop
poll ctx rounds = do
  (ctx', rounds') ←
      (if ctx.enqueued_msgs_cnt % 2 == 0 then run_rounds 10 ctx rounds else some (ctx, rounds))
  if ctx'.enqueued_msgs_cnt % 2 == 10 then run_event_loop ctx' rounds' else some (ctx', rounds')

-- The loop `for (;;)` at the end, for as long as there are deliveries.
unfoldable pub drain : AppContext → List (List Event) → Option AppContext
drain ctx [] = some ctx
drain ctx (es ∷ rounds) = do ctx' ← dispatch_all es ctx; drain ctx' rounds

-- `session` is the number that eRPC gives the session once it is connected.
unfoldable pub create_session :
    ℕ → ℕ → AppContext → List (List Event) → Option (AppContext × List (List Event))
unfolding run_event_loop
create_session session rem_node_id ctx rounds =
    run_event_loop (record ctx { connections = add_session rem_node_id session ctx.connections })
      rounds

-- `left` more requests, from index `i` on.
unfoldable pub send_loop :
    ℕ → ℕ → AppContext → List (List Event) → Option (AppContext × List (List Event))
unfolding send_req poll
send_loop zero i ctx rounds = some (ctx, rounds)
send_loop (suc left) i ctx rounds = do
  sent ← send_req i middle ctx
  (ctx', rounds') ← poll sent rounds
  send_loop left (suc i) ctx' rounds'

unfoldable pub head_func : ℕ → ℕ → AppContext → List (List Event) → Option AppContext
head_func reqs_num session ctx rounds = do
  (linked, r1) ← create_session session middle ctx rounds
  (started, r2) ← run_event_loop linked r1
  (sent, r3) ← send_loop reqs_num 0 started r2
  flashed ← flash_batcher middle sent
  drain flashed r3

-- The loop of the middle and of the tail: polls only.
unfoldable pub poll_loop :
    ℕ → AppContext → List (List Event) → Option (AppContext × List (List Event))
unfolding poll
poll_loop zero ctx rounds = some (ctx, rounds)
poll_loop (suc left) ctx rounds = do (ctx', rounds') ← poll ctx rounds; poll_loop left ctx' rounds'

unfoldable pub middle_func : ℕ → ℕ → ℕ → AppContext → List (List Event) → Option AppContext
unfolding create_session run_event_loop poll_loop drain
middle_func reqs_num session1 session2 ctx rounds = do
  (c1, r1) ← create_session session1 head ctx rounds
  (c2, r2) ← create_session session2 tail c1 r1
  (c3, r3) ← run_event_loop c2 r2
  (c4, r4) ← poll_loop reqs_num c3 r3
  drain c4 r4

unfoldable pub tail_func : ℕ → ℕ → AppContext → List (List Event) → Option AppContext
unfolding create_session run_event_loop poll_loop drain
tail_func reqs_num session ctx rounds = do
  (c1, r1) ← create_session session head ctx rounds
  (c2, r2) ← run_event_loop c1 r1
  (c3, r3) ← poll_loop reqs_num c2 r2
  drain c3 r3

-- `proto_func` makes the context and takes the branch of the process id.
unfoldable pub new_context : ℕ → ℕ → AppContext
new_context process_id instance = record {
  node_id = process_id;
  instance_id = instance;
  batcher = init batch_count msg_size;
  enqueued_msgs_cnt = 0;
  connections = [];
  fw_count = 0;
  cmt_count = 0;
  trace = [];
}

unfoldable pub proto_func : ℕ → ℕ → ℕ → ℕ × ℕ → List (List Event) → Option AppContext
unfolding new_context head_func middle_func tail_func
proto_func reqs_num process_id instance (s1, s2) rounds =
    let ctx = new_context process_id instance in
    if process_id == head
    then head_func reqs_num s1 ctx rounds
    else if process_id == middle
    then middle_func reqs_num s1 s2 ctx rounds
    else if process_id == tail
    then tail_func reqs_num s1 ctx rounds
    else some ctx
