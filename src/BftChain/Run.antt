-- ===== src/BftChain/Run.antt =====
-- bft-cr/main.cc: the runs of the three roles.
use replication_protos.Prelude.{
  ℕ, zero, suc, ◌%◌, Bool, true, false, List, [], ◌∷◌, ◌==◌, if◌then◌else◌, Bytes, minus_one,
}
use replication_protos.Outcome.{Outcome, ok, ◌>>=◌}
use replication_protos.Rpc.{add_session}
use replication_protos.Batch.{init}
use replication_protos.Attest.{Platform}
use replication_protos.BftChain.Proto.{head, middle, tail, batch_count, message_size}
use replication_protos.BftChain.Node.{
  AppContext, Event, cont_func, req_handler_cmt, send_req, flash_batcher, req_handler_fw, forwarded,
  committed, completed,
}

module _ (openssl : Bytes → Bytes → Bytes) (platform : Platform) where
  unfoldable pub dispatch : Event → AppContext → Outcome AppContext
  dispatch (forwarded b) ctx = req_handler_fw openssl platform b ctx
  dispatch (committed b) ctx = ok (req_handler_cmt b ctx)
  dispatch completed ctx = ok (cont_func ctx)

  unfoldable pub dispatch_all : List Event → AppContext → Outcome AppContext
  dispatch_all [] ctx = ok ctx
  dispatch_all (e ∷ es) ctx = do ctx' ← dispatch e ctx; dispatch_all es ctx'

  unfoldable pub run_event_loop :
      AppContext → List (List Event) → Outcome (AppContext × List (List Event))
  run_event_loop ctx [] = ok (ctx, [])
  run_event_loop ctx (es ∷ rounds) = do ctx' ← dispatch_all es ctx; ok (ctx', rounds)

  unfoldable pub run_rounds :
      ℕ → AppContext → List (List Event) → Outcome (AppContext × List (List Event))
  run_rounds zero ctx rounds = ok (ctx, rounds)
  run_rounds (suc n) ctx rounds = do
    (ctx', rounds') ← run_event_loop ctx rounds
    run_rounds n ctx' rounds'

  -- `n % 2 == 10` never holds.
  unfoldable pub poll : AppContext → List (List Event) → Outcome (AppContext × List (List Event))
  poll ctx rounds = do
    (ctx', rounds') ←
        (if ctx.enqueued_msgs_cnt % 2 == 0 then run_rounds 10 ctx rounds else ok (ctx, rounds))
    if ctx'.enqueued_msgs_cnt % 2 == 10 then run_event_loop ctx' rounds' else ok (ctx', rounds')

  unfoldable pub create_session :
      ℕ → ℕ → AppContext → List (List Event) → Outcome (AppContext × List (List Event))
  create_session session rem_node_id ctx rounds =
      run_event_loop (record ctx { connections = add_session rem_node_id session ctx.connections })
        rounds

  unfoldable pub send_loop :
      ℕ → ℕ → AppContext → List (List Event) → Outcome (AppContext × List (List Event))
  send_loop zero i ctx rounds = ok (ctx, rounds)
  send_loop (suc left) i ctx rounds = do
    sent ← send_req openssl platform i middle ctx
    (ctx', rounds') ← poll sent rounds
    send_loop left (suc i) ctx' rounds'

  -- The head's last loop leaves when the commits are as many as the requests; `false` means that it
  -- is still waiting when the deliveries end.
  unfoldable pub await_commits : ℕ → AppContext → List (List Event) → Outcome (AppContext × Bool)
  await_commits reqs_num ctx [] = ok (ctx, false)
  await_commits reqs_num ctx (es ∷ rounds) = do
    ctx' ← dispatch_all es ctx
    let rest = await_commits reqs_num ctx' rounds
    if ctx'.nb_cmts == reqs_num then ok (ctx', true) else rest

  unfoldable pub head_func : ℕ → ℕ → AppContext → List (List Event) → Outcome (AppContext × Bool)
  head_func reqs_num session ctx rounds = do
    (linked, r1) ← create_session session middle ctx rounds
    (started, r2) ← run_event_loop linked r1
    (sent, r3) ← send_loop reqs_num 0 started r2
    flashed ← flash_batcher openssl platform middle sent
    await_commits reqs_num flashed r3

  unfoldable pub poll_loop :
      ℕ → AppContext → List (List Event) → Outcome (AppContext × List (List Event))
  poll_loop zero ctx rounds = ok (ctx, rounds)
  poll_loop (suc left) ctx rounds = do
    (ctx', rounds') ← poll ctx rounds
    poll_loop left ctx' rounds'

  unfoldable pub drain : AppContext → List (List Event) → Outcome AppContext
  drain ctx [] = ok ctx
  drain ctx (es ∷ rounds) = do ctx' ← dispatch_all es ctx; drain ctx' rounds

  unfoldable pub middle_func : ℕ → ℕ → ℕ → AppContext → List (List Event) → Outcome AppContext
  middle_func reqs_num session1 session2 ctx rounds = do
    (c1, r1) ← create_session session1 head ctx rounds
    (c2, r2) ← create_session session2 tail c1 r1
    (c3, r3) ← run_event_loop c2 r2
    (c4, r4) ← poll_loop reqs_num c3 r3
    drain c4 r4

  unfoldable pub tail_func : ℕ → ℕ → AppContext → List (List Event) → Outcome AppContext
  tail_func reqs_num session ctx rounds = do
    (c1, r1) ← create_session session head ctx rounds
    (c2, r2) ← run_event_loop c1 r1
    (c3, r3) ← poll_loop reqs_num c2 r2
    drain c3 r3

-- The index starts at `-1`.
unfoldable pub new_context : ℕ → ℕ → AppContext
new_context process_id instance = record {
  node_id = process_id;
  instance_id = instance;
  nb_cmts = 0;
  batcher = init batch_count message_size;
  st = record { cmt_idx = minus_one };
  enqueued_msgs_cnt = 0;
  connections = [];
  fw_count = 0;
  cmt_count = 0;
  trace = [];
}
