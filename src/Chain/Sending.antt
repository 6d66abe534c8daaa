-- ===== src/Chain/Sending.antt =====
-- The sending loop of the head of the chain (cr/main.cc): what is sent and what still waits.
use replication_protos.Prelude.{
  ℕ, zero, suc, ◌+◌, ◌*◌, ◌%◌, ◌≤◌, ◌<◌, ◌≡◌, ◌⊎◌, inl, inr, refl, ap, subst, sym, ◌∙◌, some, List,
  [], ◌∷◌, ◌++◌, append-nil, append_assoc, arith, Bytes, load, load_all, load_eq, length, All,
  All-append, take_all, u64_mod,
}
use replication_protos.Rpc.{Effect, requests, requests-append, touch, request, session_of}
use replication_protos.Batch.{Batcher, empty_buff, serialize_batch}
use replication_protos.Batch.Contents.{
  IsValid, contents, empty_buff-IsValid, enqueue_req-Accepted, enqueue_req_full,
}
use replication_protos.Chain.Msg.{msg_bytes, msg_size, batch_count}
use replication_protos.Chain.Parse.{stream, stream-append, length-request_msg}
use replication_protos.Chain.Node.{
  AppContext, Event, Diagnostic, head, middle, req_forward, resp_size, request_msg, send_req,
}
use replication_protos.Chain.Run.{send_loop}
use replication_protos.Chain.Quiet.{Quiet, poll-Quiet}

-- The bytes of the batches that have been sent, in order.
abbrev pub payload : List (ℕ × Bytes) → Bytes
payload [] = []
payload ((t, b) ∷ rs) = b ++ payload rs

pub payload-append : (rs ss : List (ℕ × Bytes)) → payload (rs ++ ss) ≡ payload rs ++ payload ss
payload-append [] ss = refl
payload-append ((t, b) ∷ rs) ss =
    ap (◌++◌ b) (payload-append rs ss) ∙ sym (append_assoc b (payload rs) (payload ss))

-- A full batch, sent for replication.
abbrev pub FullBatch : ℕ × Bytes → Type 0
FullBatch r = (r.0 ≡ req_forward) × (length r.1 ≡ batch_count * msg_size)

-- Where the head stands after the requests before `i`: what it has sent and what waits in the
-- batcher are these requests in order, and what it has sent are full batches.
pub record IsSending (i : ℕ) (c : AppContext) : Type 0 where
  pub node : c.node_id ≡ head
  pub valid : IsValid batch_count msg_size c.batcher
  pub count : c.enqueued_msgs_cnt * batch_count + c.batcher.cur_idx ≡ i
  pub order : payload (requests c.trace) ++ contents msg_size c.batcher ≡ stream head middle 0 i
  pub full : All FullBatch (requests c.trace)

pub IsSending-Quiet : {i : ℕ} {c d : AppContext} → IsSending i c → Quiet c d → IsSending i d
IsSending-Quiet {i} {c} {d} v q = record {
  node = q.node ∙ v.node;
  valid = subst (IsValid batch_count msg_size) (sym q.batch) v.valid;
  count = rw (q.count, q.batch) v.count;
  order = rw (q.sent, q.batch) v.order;
  full = subst (All FullBatch) (sym q.sent) v.full;
}

load_buffer :
    (b : Batcher)
    → IsValid batch_count msg_size b
    → load 0 (msg_size * batch_count) (serialize_batch b) ≡ some b.buffer
unfolding serialize_batch
load_buffer b v = load_all (msg_size * batch_count) b.buffer (omega arith)

pub load_held :
    (b : Batcher)
    → IsValid batch_count msg_size b
    → load 0 (msg_size * b.cur_idx) (serialize_batch b) ≡ some (contents msg_size b)
unfolding serialize_batch
load_held b v =
    ap (λ k. load 0 k b.buffer) (omega arith)
    ∙ load_eq 0 (b.cur_idx * msg_size) b.buffer (omega (arith, v.within, v.buffer_size))

emptied : (b : Batcher) → (empty_buff b).cur_idx ≡ 0
unfolding empty_buff
emptied b = refl

-- The request that carries a full batch.
abbrev pub batch_request : ℕ → Bytes → Effect Diagnostic
batch_request session body = request session req_forward body resp_size

payload-sent :
    (trace : List (Effect Diagnostic)) (session : ℕ) (b : Batcher)
    → IsValid batch_count msg_size b
    → b.cur_idx ≡ batch_count
    → payload (requests (trace ++ (batch_request session b.buffer ∷ [])))
        ++ contents msg_size (empty_buff b)
      ≡ payload (requests trace) ++ contents msg_size b
unfolding empty_buff
payload-sent trace session b v h =
    append-nil _
    ∙ ap payload (requests-append trace (batch_request session b.buffer ∷ []))
    ∙ payload-append (requests trace) ((req_forward, b.buffer) ∷ [])
    ∙ ap (◌++◌ (payload (requests trace)))
        (append-nil b.buffer ∙ sym (take_all (b.cur_idx * msg_size) b.buffer (omega arith)))

full-sent :
    (trace : List (Effect Diagnostic)) (session : ℕ) (b : Batcher)
    → IsValid batch_count msg_size b
    → All FullBatch (requests trace)
    → All FullBatch (requests (trace ++ (batch_request session b.buffer ∷ [])))
full-sent trace session b v f =
    subst (All FullBatch) (sym (requests-append trace (batch_request session b.buffer ∷ []))) (
      All-append FullBatch (requests trace) ((req_forward, b.buffer) ∷ []) f
        ((refl, v.buffer_size), tt))

empty_room : (b : Batcher) → (empty_buff b).cur_idx < batch_count
unfolding empty_buff
empty_room b = omega arith

stream_next :
    (i src : ℕ) (sent held held' : Bytes)
    → src ≡ head
    → sent ++ held ≡ stream head middle 0 i
    → held' ≡ held ++ msg_bytes (request_msg src middle i)
    → sent ++ held' ≡ stream head middle 0 (suc i)
stream_next i src sent held held' n e p =
    rw (p, n) (sym (append_assoc sent held (msg_bytes (request_msg head middle i))))
    ∙ ap (λ bs. bs ++ msg_bytes (request_msg head middle i)) e
    ∙ ap (λ k. stream head middle 0 i ++ msg_bytes (request_msg head middle k)) (omega arith)
    ∙ sym (stream-append head middle 0 i)

-- The message fits the batch.
send_req_accepted :
    (i : ℕ) (c : AppContext)
    → IsSending i c
    → c.batcher.cur_idx < batch_count
    → (d : AppContext) × (send_req i middle c ≡ some d) × IsSending (suc i) d
unfolding send_req
send_req_accepted i c v h =
    let (b', a) =
      enqueue_req-Accepted batch_count msg_size c.batcher
        (msg_bytes (request_msg c.node_id middle i)) v.valid (length-request_msg c.node_id middle i)
        h in
    (
      record c { batcher = b' },
      rw a.result,
      record {
        node = v.node;
        valid = a.valid;
        count = omega (arith, a.count, v.count);
        order = stream_next i c.node_id _ _ _ v.node v.order a.appended;
        full = v.full;
      },
    )

-- The batch is full: it is sent, and the message opens the next one.
send_req_sent :
    (i : ℕ) (c : AppContext)
    → IsSending i c
    → i < u64_mod
    → c.batcher.cur_idx ≡ batch_count
    → (d : AppContext) × (send_req i middle c ≡ some d) × IsSending (suc i) d
unfolding send_req
send_req_sent i c v small h =
    let fresh = empty_buff-IsValid batch_count msg_size v.valid in
    let (b', a) =
      enqueue_req-Accepted batch_count msg_size (empty_buff c.batcher)
        (msg_bytes (request_msg c.node_id middle i)) fresh (length-request_msg c.node_id middle i)
        (empty_room c.batcher) in
    (
      record c {
        batcher = b';
        enqueued_msgs_cnt = (c.enqueued_msgs_cnt + 1) % u64_mod;
        connections = touch middle c.connections;
        trace =
            c.trace
            ++ (request (session_of middle c.connections) req_forward c.batcher.buffer resp_size
                ∷ []);
      },
      rw (
        enqueue_req_full batch_count msg_size c.batcher (msg_bytes (request_msg c.node_id middle i))
            h,
        load_buffer c.batcher v.valid,
        a.result,
      ),
      record {
        node = v.node;
        valid = a.valid;
        count = omega (arith, a.count, v.count, emptied c.batcher);
        order =
            stream_next i c.node_id _ _ _ v.node
              (payload-sent c.trace (session_of middle c.connections) c.batcher v.valid h ∙ v.order)
              a.appended;
        full = full-sent c.trace (session_of middle c.connections) c.batcher v.valid v.full;
      },
    )

send_req-IsSending :
    (i : ℕ) (c : AppContext)
    → IsSending i c
    → i < u64_mod
    → (d : AppContext) × (send_req i middle c ≡ some d) × IsSending (suc i) d
send_req-IsSending i c v small = elim (room (c.batcher.cur_idx) v.valid.within) [
  | inl h ↦ send_req_accepted i c v h
  | inr h ↦ send_req_sent i c v small h
]
  where
    room : (k : ℕ) → k ≤ batch_count → (k < batch_count) ⊎ (k ≡ batch_count)
    room k h = grind arith

pub send_loop-IsSending :
    (left i : ℕ) (c : AppContext) (rounds : List (List Event))
    → IsSending i c
    → i + left ≤ u64_mod
    → (r : AppContext × List (List Event)) × (send_loop left i c rounds ≡ some r)
      × IsSending (i + left) r.0
unfolding send_loop
send_loop-IsSending zero i c rounds v h =
    ((c, rounds), refl, subst (λ k. IsSending k c) (omega arith) v)
send_loop-IsSending (suc left) i c rounds v h =
    let (d, e, w) = send_req-IsSending i c v (omega arith) in
    let (r, e', q) = poll-Quiet d rounds w.node in
    let (s, e'', w') =
      send_loop-IsSending left (suc i) r.0 r.1 (IsSending-Quiet w q) (omega arith) in
    (s, rw (e, e') e'', subst (λ k. IsSending k s.0) (omega arith) w')
