-- ===== src/Tlog/Run.antt =====
-- trusted-log/main.cc: the runs of the leader and of a follower, laid out as for the other protocols:
-- `rounds` lists what each run of the event loop delivers. A loop that waits for a condition answers
-- whether it was met before the deliveries ended.
use replication_protos.Prelude.{
  ℕ, zero, suc, ◌*◌, ◌/◌, ◌%◌, Bool, true, false, ◌&&◌, List, [], ◌∷◌, ◌++◌, ◌==◌, if◌then◌else◌,
  Bytes, zeros, u64_mod,
}
use replication_protos.Outcome.{Outcome, ok, ◌>>=◌}
use replication_protos.Attest.{Platform}
use replication_protos.Rpc.{add_session}
use replication_protos.Batch
use replication_protos.Tlog.Format.{msg_size, hash_size}
use replication_protos.Tlog.Log
use replication_protos.Tlog.Metadata.{Metadata, batch_count, log_entry, log_audit}
use replication_protos.Tlog.Node.{
  AppContext, Event, proposed, terminated, prp_response, terminate_response, leader, follower,
  send_req, send_req_finito, flash_batcher, cont_func_prp, cont_func_terminate, req_handler_prp,
  req_handler_finito,
}

module _ (openssl : Bytes → Bytes → Bytes) (platform : Platform) where
  unfoldable pub dispatch : Event → AppContext → Outcome AppContext
  dispatch (proposed b uninit) ctx = req_handler_prp openssl platform b uninit ctx
  dispatch (terminated ack resp) ctx = req_handler_finito openssl platform ack resp ctx
  dispatch (prp_response b uninit) ctx = cont_func_prp openssl platform b uninit ctx
  dispatch terminate_response ctx = ok (cont_func_terminate ctx)

  unfoldable pub dispatch_all : List Event → AppContext → Outcome AppContext
  dispatch_all [] ctx = ok ctx
  dispatch_all (e ∷ es) ctx = do ctx' ← dispatch e ctx; dispatch_all es ctx'

  unfoldable pub run_event_loop :
      AppContext → List (List Event) → Outcome (AppContext × List (List Event))
  run_event_loop ctx [] = ok (ctx, [])
  run_event_loop ctx (es ∷ rounds) = do ctx' ← dispatch_all es ctx; ok (ctx', rounds)

  unfoldable pub run_rounds :
      ℕ → AppContext → List (List Event) → Outcome (AppContext × List (List Event))
  run_rounds zero ctx rounds = ok (ctx, rounds)
  run_rounds (suc n) ctx rounds = do
    (ctx', rounds') ← run_event_loop ctx rounds
    run_rounds n ctx' rounds'

  unfoldable pub poll : AppContext → List (List Event) → Outcome (AppContext × List (List Event))
  poll ctx rounds = do
    (ctx', rounds') ←
        (if ctx.enqueued_msgs_cnt % 2 == 0 then run_rounds 10 ctx rounds else ok (ctx, rounds))
    if ctx'.enqueued_msgs_cnt % 2 == 10 then run_event_loop ctx' rounds' else ok (ctx', rounds')

  unfoldable pub create_session :
      ℕ → ℕ → AppContext → List (List Event) → Outcome (AppContext × List (List Event))
  create_session session rem_node_id ctx rounds =
      run_event_loop (record ctx { connections = add_session rem_node_id session ctx.connections })
        rounds

  -- The followers with the numbers of their sessions: one is added as soon as it is connected.
  unfoldable pub connect_all :
      List (ℕ × ℕ) → AppContext → List (List Event) → Outcome (AppContext × List (List Event))
  connect_all [] ctx rounds = ok (ctx, rounds)
  connect_all ((id, session) ∷ uris) ctx rounds = do
    (linked, rounds') ← create_session session id ctx rounds
    let metadata = record linked.metadata { followers = linked.metadata.followers ++ (id ∷ []) }
    connect_all uris (record linked { metadata = metadata }) rounds'

  module _ (audit : Bool) where
    -- `left` more requests, from index `i` on.
    unfoldable pub send_loop :
        ℕ → ℕ → AppContext → List (List Event) → Outcome (AppContext × List (List Event))
    send_loop zero i ctx rounds = ok (ctx, rounds)
    send_loop (suc left) i ctx rounds = do
      sent ← send_req openssl platform audit i ctx.metadata.followers ctx
      (ctx', rounds') ← poll sent rounds
      send_loop left (suc i) ctx' rounds'

    -- The first loop at the end: until all replies are there. `uninit` is what the requests to
    -- terminate hold.
    unfoldable pub await_replies :
        Bytes → ℕ → AppContext → List (List Event) → Outcome (AppContext × List (List Event) × Bool)
    await_replies uninit reqs_num ctx [] = ok (ctx, [], false)
    await_replies uninit reqs_num ctx (es ∷ rounds) = do
      heard ← dispatch_all es ctx
      metadata ← log_audit openssl platform audit heard.metadata
      let audited : AppContext = record heard { metadata = metadata }
      if audited.count_replies * batch_count % u64_mod == reqs_num * 2
          then (do
            (ctx', rounds') ←
                run_event_loop
                  (send_req_finito openssl platform uninit audited.metadata.followers audited)
                  rounds
            ok (ctx', rounds', true))
          else await_replies uninit reqs_num audited rounds

    -- The second: until the log is complete and both followers have terminated.
    unfoldable pub await_termination :
        ℕ → AppContext → List (List Event) → Outcome (AppContext × Bool)
    await_termination reqs_num ctx [] = ok (ctx, false)
    await_termination reqs_num ctx (es ∷ rounds) = do
      metadata ← log_audit openssl platform audit ctx.metadata
      heard ← dispatch_all es (record ctx { metadata = metadata })
      if Log.get_log_size heard.metadata.tlog == reqs_num * 2 && heard.finished_nodes == 2
          then ok (heard, true)
          else await_termination reqs_num heard rounds

    unfoldable pub leader_func :
        Bytes → ℕ → List (ℕ × ℕ) → AppContext → List (List Event) → Outcome (AppContext × Bool)
    leader_func uninit reqs_num uris ctx rounds = do
      (linked, r1) ← connect_all uris ctx rounds
      (started, r2) ← run_event_loop linked r1
      (sent, r3) ← send_loop reqs_num 0 started r2
      flashed ← flash_batcher openssl platform sent.metadata.followers sent
      (heard, r4, complete) ← await_replies uninit reqs_num flashed r3
      if complete then await_termination reqs_num heard r4 else ok (heard, false)

  unfoldable pub poll_loop :
      ℕ → AppContext → List (List Event) → Outcome (AppContext × List (List Event))
  poll_loop zero ctx rounds = ok (ctx, rounds)
  poll_loop (suc left) ctx rounds = do
    (ctx', rounds') ← poll ctx rounds
    poll_loop left ctx' rounds'

  -- The loop of a follower at the end: until it is told to stop.
  unfoldable pub await_stop : AppContext → List (List Event) → Outcome (AppContext × Bool)
  await_stop ctx [] = ok (ctx, false)
  await_stop ctx (es ∷ rounds) = do
    heard ← dispatch_all es ctx
    if heard.stop then ok (heard, true) else await_stop heard rounds

  unfoldable pub follower_func : ℕ → AppContext → List (List Event) → Outcome (AppContext × Bool)
  follower_func reqs_num ctx rounds = do
    (started, r1) ← run_event_loop ctx rounds
    (polled, r2) ← poll_loop reqs_num started r1
    await_stop polled r2

-- The metadata and the context that `proto_func` makes, and its branch of the process id.
unfoldable pub new_metadata : ℕ → Metadata
new_metadata reqs_num = record {
  witness_meta = (1, 0) ∷ (2, 0) ∷ [];
  last_state_cmt = 0;
  leader = follower;
  cmt_idx = 0;
  followers = [];
  mock_h1 = zeros hash_size;
  mock_h2 = zeros hash_size;
  tlog = Log.init log_entry (log_entry * reqs_num * 4 / batch_count);
  f1_last_state = zeros hash_size;
  f2_last_state = zeros hash_size;
}

unfoldable pub new_context : ℕ → ℕ → ℕ → AppContext
new_context reqs_num process_id thread_id = record {
  node_id = process_id;
  instance_id = thread_id;
  batcher = Batch.init batch_count msg_size;
  metadata = new_metadata reqs_num;
  count_replies = 0;
  finished_nodes = 0;
  stop = false;
  enqueued_msgs_cnt = 0;
  connections = [];
  prp_count = 0;
  trace = [];
}

unfoldable pub proto_func :
    (Bytes → Bytes → Bytes)
    → Platform
    → Bool
    → Bytes
    → ℕ
    → ℕ
    → ℕ
    → ℕ × ℕ
    → List (List Event)
    → Outcome (AppContext × Bool)
proto_func openssl platform audit uninit reqs_num process_id thread_id (s1, s2) rounds =
    let ctx = new_context reqs_num process_id thread_id in
    if process_id == leader
    then leader_func openssl platform audit uninit reqs_num ((1, s1) ∷ (2, s2) ∷ []) ctx rounds
    else follower_func openssl platform reqs_num ctx rounds
