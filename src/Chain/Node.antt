-- ===== src/Chain/Node.antt =====
-- cr/main.cc: the context of a node and its operations. `AppContext` is `app_context` with the
-- `static` counters of the two handlers and with the trace of what the node has handed to eRPC.
-- Time is cut into runs of the event loop: `rounds` lists what each run delivers, and is used up
-- from the front. Progress lines and debug output are left out.
use replication_protos.Prelude.{
  ℕ, ◌+◌, ◌*◌, ◌%◌, Option, some, List, [], ◌∷◌, ◌++◌, ◌==◌, if◌then◌else◌, ◌>>=◌, Bytes, zeros,
  load, length, u32_mod, u64_mod, sign_extend,
}
use replication_protos.Rpc.{Effect, request, ack, report, Sessions, session_of, touch}
use replication_protos.Batch.{Batcher, enqueue_req, serialize_batch, empty_buff, deserialize}
use replication_protos.Chain.Msg.{
  Msg, CmtMsg, Indexes, msg_bytes, cmt_msg_bytes, zero_header, key_sz, value_sz, msg_size,
  batch_count, parse_indexes,
}

abbrev pub head : ℕ
head = 0

abbrev pub middle : ℕ
middle = 1

abbrev pub tail : ℕ
tail = 2

abbrev pub req_forward : ℕ
req_forward = 1

abbrev pub req_commit : ℕ
req_commit = 2

-- `kMsgSize`
abbrev pub resp_size : ℕ
resp_size = 64

-- What the handlers print when something is wrong.
pub data Diagnostic : Type 0 where
  index_mismatch : ℕ × ℕ → Diagnostic
  not_head : Diagnostic

pub record AppContext : Type 0 where
  pub node_id : ℕ
  pub instance_id : ℕ
  pub batcher : Batcher
  pub enqueued_msgs_cnt : ℕ
  pub connections : Sessions
  pub fw_count : ℕ
  pub cmt_count : ℕ
  pub trace : List (Effect Diagnostic)

-- What a run of the event loop calls: the two request handlers and the continuation of a response.
pub data Event : Type 0 where
  forwarded : Bytes → Event
  committed : Bytes → Event
  completed : Event

unfoldable pub emit : Effect Diagnostic → AppContext → AppContext
emit e ctx = record ctx { trace = ctx.trace ++ (e ∷ []) }

-- `cont_func` frees the two buffers of a request.
unfoldable pub cont_func : AppContext → AppContext
cont_func ctx = ctx

-- `rpc->enqueue_request(connections[dest], type, req, resp, …)`.
unfoldable pub send : ℕ → ℕ → Bytes → AppContext → AppContext
unfolding emit
send dest type body ctx =
    emit (request (session_of dest ctx.connections) type body resp_size)
      (record ctx { connections = touch dest ctx.connections })

-- The message that `send_req` builds: `std::make_unique<msg>()` zeroes the key and the value.
unfoldable pub request_msg : ℕ → ℕ → ℕ → Msg
request_msg src dest idx = record {
  hdr = record { src_node = src; dest_node = dest; seq_idx = idx % u32_mod; msg_size = resp_size };
  key = zeros key_sz;
  value = zeros value_sz;
}

unfoldable pub send_req : ℕ → ℕ → AppContext → Option AppContext
unfolding send
send_req idx dest ctx = do
  let buf = msg_bytes (request_msg ctx.node_id dest idx)
  (accepted, batcher) ← enqueue_req batch_count msg_size ctx.batcher buf
  if accepted then some (record ctx { batcher = batcher }) else do
    body ← load 0 (msg_size * batch_count) (serialize_batch batcher)
    let sent = send dest req_forward body (record ctx { batcher = batcher })
    (again, batcher') ← enqueue_req batch_count msg_size (empty_buff sent.batcher) buf
    some (record sent {
      batcher = batcher';
      enqueued_msgs_cnt = (sent.enqueued_msgs_cnt + 1) % u64_mod;
    })

-- The batch as far as it is filled; the batcher is left as it is.
unfoldable pub flash_batcher : ℕ → AppContext → Option AppContext
unfolding send
flash_batcher dest ctx = do
  body ← load 0 (msg_size * ctx.batcher.cur_idx) (serialize_batch ctx.batcher)
  some (send dest req_forward body ctx)

unfoldable pub forward_req : ℕ → Bytes → AppContext → AppContext
unfolding send
forward_req dest buff ctx = send dest req_forward buff ctx

emit_mismatches : List (ℕ × ℕ) → AppContext → AppContext
emit_mismatches [] ctx = ctx
emit_mismatches (m ∷ ms) ctx = emit_mismatches ms (emit (report (index_mismatch m)) ctx)

-- The indexes are `int`s, which the assignment to `uint64_t` extends by their sign.
unfoldable pub commit_msg : Indexes → CmtMsg
commit_msg found = record {
  hdr = zero_header;
  s_cmt_idx = sign_extend found.min_idx;
  e_cmt_idx = sign_extend found.max_idx;
}

unfoldable pub send_commit_req : ℕ → Bytes → AppContext → Option AppContext
unfolding send emit emit_mismatches
send_commit_req dest buff ctx = do
  found ← parse_indexes buff
  some (
      send dest req_commit (cmt_msg_bytes (commit_msg found))
        (emit_mismatches found.mismatches ctx))

-- The handler of `kReqForward`. The acknowledgement goes out before the batch is looked at.
unfoldable pub req_handler_fw : Bytes → AppContext → Option AppContext
unfolding emit forward_req send_commit_req
req_handler_fw recv_data ctx = do
  batched_msg ← deserialize recv_data (length recv_data)
  let acked = emit (ack resp_size) (record ctx { fw_count = (ctx.fw_count + 1) % u64_mod })
  let passed = if acked.node_id == middle then forward_req tail batched_msg acked else acked
  if passed.node_id == tail then send_commit_req head batched_msg passed else some passed

unfoldable pub req_handler_cmt : Bytes → AppContext → AppContext
unfolding emit
req_handler_cmt recv_data ctx =
    let acked = emit (ack resp_size) (record ctx { cmt_count = (ctx.cmt_count + 1) % u64_mod }) in
    if acked.node_id == head then acked else emit (report not_head) acked
