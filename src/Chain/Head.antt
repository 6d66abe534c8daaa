-- ===== src/Chain/Head.antt =====
-- The head of the chain: in what order the requests leave it, whatever is delivered meanwhile.
use replication_protos.Prelude.{
  ℕ, ◌*◌, ◌≤◌, ◌≡◌, refl, ap, subst, ◌∙◌, some, List, [], ◌∷◌, ◌++◌, append-nil, arith, Bytes,
  length-take, length, All, u64_mod,
}
use replication_protos.Rpc.{requests, requests-append, touch, add_session, session_of}
use replication_protos.Batch.{init}
use replication_protos.Batch.Contents.{contents, init-IsValid}
use replication_protos.Chain.Msg.{msg_size, batch_count}
use replication_protos.Chain.Parse.{stream}
use replication_protos.Chain.Node.{AppContext, Event, head, middle, req_forward, flash_batcher}
use replication_protos.Chain.Run.{create_session, head_func, new_context}
use replication_protos.Chain.Quiet.{
  Quiet, Quiet-trans, Runs, head_of_Quiet, run_event_loop-Quiet, drain-Quiet, first,
}
use replication_protos.Chain.Sending.{
  payload, payload-append, FullBatch, IsSending, IsSending-Quiet, load_held, batch_request,
  send_loop-IsSending,
}

-- What the head has sent once it is done: full batches and a last one of what is left over, which
-- together are the requests `0` to `n - 1`, in order.
pub record Delivered (n : ℕ) (c : AppContext) : Type 0 where
  pub batches : List (ℕ × Bytes)
  pub rest : Bytes
  pub sent : requests c.trace ≡ batches ++ ((req_forward, rest) ∷ [])
  pub full : All FullBatch batches
  pub short : length rest ≤ batch_count * msg_size
  pub order : payload (requests c.trace) ≡ stream head middle 0 n

flash_batcher-Delivered :
    (n : ℕ) (c : AppContext)
    → IsSending n c
    → (d : AppContext) × (flash_batcher middle c ≡ some d) × (d.node_id ≡ head) × Delivered n d
unfolding flash_batcher
flash_batcher-Delivered n c v = (
  record c {
    connections = touch middle c.connections;
    trace = c.trace ++ (batch_request session held ∷ []);
  },
  rw (load_held c.batcher v.valid),
  v.node,
  record {
    batches = requests c.trace;
    rest = held;
    sent = requests-append c.trace (batch_request session held ∷ []);
    full = v.full;
    short =
        omega
          (arith, length-take {0} (c.batcher.cur_idx * msg_size) c.batcher.buffer, v.valid.within);
    order =
        ap payload (requests-append c.trace (batch_request session held ∷ []))
        ∙ payload-append (requests c.trace) ((req_forward, held) ∷ [])
        ∙ ap (◌++◌ (payload (requests c.trace))) (append-nil held)
        ∙ v.order;
  },
)
  where
    session : ℕ
    session = session_of middle c.connections

    held : Bytes
    held = contents msg_size c.batcher

Delivered-Quiet : {n : ℕ} {c d : AppContext} → Delivered n c → Quiet c d → Delivered n d
Delivered-Quiet w q = record {
  batches = w.batches;
  rest = w.rest;
  sent = q.sent ∙ w.sent;
  full = w.full;
  short = w.short;
  order = ap payload q.sent ∙ w.order;
}

new_context-head : (instance : ℕ) → (new_context head instance).node_id ≡ head
unfolding new_context
new_context-head instance = refl

new_context-IsSending : (instance : ℕ) → IsSending 0 (new_context head instance)
unfolding new_context init
new_context-IsSending instance = record {
  node = refl;
  valid = init-IsValid batch_count msg_size (omega arith);
  count = refl;
  order = refl;
  full = tt;
}

create_session-Quiet :
    (session : ℕ) (c : AppContext) (rounds : List (List Event))
    → c.node_id ≡ head
    → Runs first c (create_session session middle c rounds)
unfolding create_session
create_session-Quiet session c rounds h =
    let linked : AppContext = record c { connections = add_session middle session c.connections } in
    let (r, e, q) = run_event_loop-Quiet linked rounds h in
    (r, e, record { node = q.node; batch = q.batch; count = q.count; sent = q.sent })

-- The head of cr/main.cc, for at most 2^64 requests and whatever the event loop delivers to it,
-- never faults and sends each of the requests 0 to n-1 once and in order: full batches of 16 and a
-- last batch of the others, which holds at most 16.
pub head_func-Delivered :
    (n session instance : ℕ) (rounds : List (List Event))
    → n ≤ u64_mod
    → (d : AppContext) × (head_func n session (new_context head instance) rounds ≡ some d)
      × Delivered n d
unfolding head_func
head_func-Delivered n session instance rounds small =
    let (r1, e1, q1) =
      create_session-Quiet session (new_context head instance) rounds (new_context-head instance) in
    let h1 = head_of_Quiet (new_context-head instance) q1 in
    let (r2, e2, q2) = run_event_loop-Quiet r1.0 r1.1 h1 in
    let v2 = IsSending-Quiet (new_context-IsSending instance) (Quiet-trans q1 q2) in
    let (r3, e3, v3) = send_loop-IsSending n 0 r2.0 r2.1 v2 (omega arith) in
    let (d, e4, h4, w) =
      flash_batcher-Delivered n r3.0 (subst (λ k. IsSending k r3.0) (omega arith) v3) in
    let (f, e5, q5) = drain-Quiet d r3.1 h4 in (f, rw (e1, e2, e3, e4) e5, Delivered-Quiet w q5)
