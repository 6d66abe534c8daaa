-- ===== src/Pb/Run.antt =====
-- bft-pb/main.cc: the runs of the leader and of a follower, laid out as for the other protocols:
-- `rounds` lists what each run of the event loop delivers.
use replication_protos.Prelude.{
  ℕ, zero, suc, ◌*◌, ◌%◌, Bool, true, false, List, [], ◌∷◌, ◌++◌, ◌==◌, if◌then◌else◌, Bytes, zeros,
  u64_mod,
}
use replication_protos.Outcome.{Outcome, ok, ◌>>=◌}
use replication_protos.Attest.{Platform}
use replication_protos.Rpc.{add_session}
use replication_protos.Batch
use replication_protos.Tlog.Format.{hash_size, p_msg_size}
use replication_protos.Tlog.Node.{leader}
use replication_protos.Pb.Node.{
  AppContext, Event, proposed, prp_response, batch_count, send_req, flash_batcher, cont_func_prp,
  req_handler_prp,
}

module _ (openssl : Bytes → Bytes → Bytes) (platform : Platform) where
  unfoldable pub dispatch : Event → AppContext → Outcome AppContext
  dispatch (proposed b ack resp) ctx = req_handler_prp openssl platform b ack resp ctx
  dispatch (prp_response b) ctx = cont_func_prp openssl platform b ctx

  unfoldable pub dispatch_all : List Event → AppContext → Outcome AppContext
  dispatch_all [] ctx = ok ctx
  dispatch_all (e ∷ es) ctx = do ctx' ← dispatch e ctx; dispatch_all es ctx'

  unfoldable pub run_event_loop :
      AppContext → List (List Event) → Outcome (AppContext × List (List Event))
  run_event_loop ctx [] = ok (ctx, [])
  run_event_loop ctx (es ∷ rounds) = do ctx' ← dispatch_all es ctx; ok (ctx', rounds)

  unfoldable pub run_rounds :
      ℕ → AppContext → List (List Event) → Outcome (AppContext × List (List Event))
  run_rounds zero ctx rounds = ok (ctx, rounds)
  run_rounds (suc n) ctx rounds = do
    (ctx', rounds') ← run_event_loop ctx rounds
    run_rounds n ctx' rounds'

  unfoldable pub poll : AppContext → List (List Event) → Outcome (AppContext × List (List Event))
  poll ctx rounds = do
    (ctx', rounds') ←
        (if ctx.enqueued_msgs_cnt % 2 == 0 then run_rounds 10 ctx rounds else ok (ctx, rounds))
    if ctx'.enqueued_msgs_cnt % 2 == 10 then run_event_loop ctx' rounds' else ok (ctx', rounds')

  unfoldable pub create_session :
      ℕ → ℕ → AppContext → List (List Event) → Outcome (AppContext × List (List Event))
  create_session session rem_node_id ctx rounds =
      run_event_loop (record ctx { connections = add_session rem_node_id session ctx.connections })
        rounds

  unfoldable pub connect_all :
      List (ℕ × ℕ) → AppContext → List (List Event) → Outcome (AppContext × List (List Event))
  connect_all [] ctx rounds = ok (ctx, rounds)
  connect_all ((id, session) ∷ uris) ctx rounds = do
    (linked, rounds') ← create_session session id ctx rounds
    let metadata = record linked.metadata { followers = linked.metadata.followers ++ (id ∷ []) }
    connect_all uris (record linked { metadata = metadata }) rounds'

  -- `left` more requests, from index `i` on.
  unfoldable pub send_loop :
      ℕ → ℕ → AppContext → List (List Event) → Outcome (AppContext × List (List Event))
  send_loop zero i ctx rounds = ok (ctx, rounds)
  send_loop (suc left) i ctx rounds = do
    sent ← send_req openssl platform i ctx.metadata.followers ctx
    (ctx', rounds') ← poll sent rounds
    send_loop left (suc i) ctx' rounds'

  -- Until all replies are there, or there is nothing more to deliver.
  unfoldable pub await_replies : ℕ → AppContext → List (List Event) → Outcome (AppContext × Bool)
  await_replies reqs_num ctx [] = ok (ctx, false)
  await_replies reqs_num ctx (es ∷ rounds) = do
    heard ← dispatch_all es ctx
    if heard.count_replies * batch_count % u64_mod == reqs_num * 2
        then ok (heard, true)
        else await_replies reqs_num heard rounds

  unfoldable pub leader_func :
      ℕ → List (ℕ × ℕ) → AppContext → List (List Event) → Outcome (AppContext × Bool)
  leader_func reqs_num uris ctx rounds = do
    (linked, r1) ← connect_all uris ctx rounds
    (started, r2) ← run_event_loop linked r1
    (sent, r3) ← send_loop reqs_num 0 started r2
    flashed ← flash_batcher openssl platform sent.metadata.followers sent
    await_replies reqs_num flashed r3

  unfoldable pub poll_loop :
      ℕ → AppContext → List (List Event) → Outcome (AppContext × List (List Event))
  poll_loop zero ctx rounds = ok (ctx, rounds)
  poll_loop (suc left) ctx rounds = do
    (ctx', rounds') ← poll ctx rounds
    poll_loop left ctx' rounds'

  -- A follower's loop at the end never stops: all deliveries are made.
  unfoldable pub drain : AppContext → List (List Event) → Outcome AppContext
  drain ctx [] = ok ctx
  drain ctx (es ∷ rounds) = do heard ← dispatch_all es ctx; drain heard rounds

  unfoldable pub follower_func : ℕ → AppContext → List (List Event) → Outcome AppContext
  follower_func reqs_num ctx rounds = do
    (started, r1) ← run_event_loop ctx rounds
    (polled, r2) ← poll_loop reqs_num started r1
    drain polled r2

unfoldable pub new_context : ℕ → ℕ → AppContext
new_context process_id thread_id = record {
  node_id = process_id;
  instance_id = thread_id;
  count_replies = 0;
  batcher = Batch.init batch_count p_msg_size;
  metadata = record {
    cmt_idx = 0;
    followers = [];
    mock_h1 = zeros hash_size;
    mock_h2 = zeros hash_size;
    my_last_state = zeros hash_size;
    f1_last_state = zeros hash_size;
    f2_last_state = zeros hash_size;
  };
  enqueued_msgs_cnt = 0;
  connections = [];
  leader_exp_cnt = 0;
  trace = [];
}

-- A leader that leaves its loop returns; a follower does not.
unfoldable pub proto_func :
    (Bytes → Bytes → Bytes)
    → Platform
    → ℕ
    → ℕ
    → ℕ
    → ℕ × ℕ
    → List (List Event)
    → Outcome (AppContext × Bool)
proto_func openssl platform reqs_num process_id thread_id (s1, s2) rounds =
    let ctx = new_context process_id thread_id in
    if process_id == leader
    then leader_func openssl platform reqs_num ((1, s1) ∷ (2, s2) ∷ []) ctx rounds
    else (do heard ← follower_func openssl platform reqs_num ctx rounds; ok (heard, false))
