-- ===== src/Rf/Node.antt =====
-- rf/main.cc and rf/msg.h: the context of a node and its operations, laid out as for cr: `rounds` lists
-- what each run of the event loop delivers. The messages have the layout of those of cr/msg.h.
use replication_protos.Prelude.{
  ℕ, ◌+◌, ◌*◌, ◌/◌, ◌%◌, Option, some, List, [], ◌∷◌, ◌++◌, ltb, if◌then◌else◌, ◌>>=◌, Bytes, zeros,
  load, length, decode_le, encode_le, u32_mod, u64_mod, minus_one, sign_extend,
}
use replication_protos.Rpc.{Effect, request, reply, report, Sessions, session_of, touch}
use replication_protos.Batch.{Batcher, enqueue_req, serialize_batch, empty_buff, deserialize}
use replication_protos.Chain.Msg.{
  Header, Msg, Indexes, no_indexes, msg_bytes, header_bytes, zero_header, key_sz, value_sz,
  msg_size, batch_count, parse_from,
}
use replication_protos.Rf.Acks.{Metadata, update_prp_acks, update_cmt_acks}

abbrev pub leader : ℕ
leader = 0

abbrev pub follower : ℕ
follower = 1

abbrev pub req_propose : ℕ
req_propose = 1

abbrev pub req_commit : ℕ
req_commit = 2

-- `kMsgSize` and `sizeof(cmt_msg)`.
abbrev pub resp_size : ℕ
resp_size = 128

abbrev pub cmt_msg_size : ℕ
cmt_msg_size = 32

pub record CmtMsg : Type 0 where
  pub hdr : Header
  pub s_idx : ℕ
  pub e_idx : ℕ

unfoldable pub cmt_msg_bytes : CmtMsg → Bytes
cmt_msg_bytes m = header_bytes m.hdr ++ (encode_le 8 m.s_idx ++ encode_le 8 m.e_idx)

-- The number of messages in a batch of `sz` bytes.
unfoldable pub msgs_num : ℕ → ℕ
msgs_num sz = if ltb sz (batch_count * msg_size) then sz / msg_size else batch_count

unfoldable pub parse_indexes : Bytes → ℕ → Option Indexes
unfolding msgs_num
parse_indexes msgs sz = parse_from (msgs_num sz) (msgs_num sz) 0 msgs no_indexes

pub record AppContext : Type 0 where
  pub node_id : ℕ
  pub instance_id : ℕ
  pub batcher : Batcher
  pub metadata : Metadata
  pub enqueued_msgs_cnt : ℕ
  pub connections : Sessions
  pub prp_count : ℕ
  pub cmt_count : ℕ
  pub prp_acked : ℕ
  pub cmt_acked : ℕ
  pub trace : List (Effect (ℕ × ℕ))

-- What a run of the event loop calls: the two request handlers and the two continuations. The
-- response of a proposal is read after its buffer was freed: the event carries what is read then.
pub data Event : Type 0 where
  proposed : Bytes → Event
  committed : Bytes → Event
  prp_response : Bytes → Event
  cmt_response : Bytes → Event

unfoldable pub emit : Effect (ℕ × ℕ) → AppContext → AppContext
emit e ctx = record ctx { trace = ctx.trace ++ (e ∷ []) }

-- `rpc->enqueue_request(connections[dest], type, req, resp, …)`, with the size of `resp`.
unfoldable pub send : ℕ → Bytes → ℕ → ℕ → AppContext → AppContext
unfolding emit
send type body resp dest ctx =
    emit (request (session_of dest ctx.connections) type body resp)
      (record ctx { connections = touch dest ctx.connections })

-- The loops over `dest_ids`.
unfoldable pub broadcast : ℕ → Bytes → ℕ → List ℕ → AppContext → AppContext
unfolding send
broadcast type body resp [] ctx = ctx
broadcast type body resp (dest ∷ dests) ctx =
    broadcast type body resp dests (send type body resp dest ctx)

-- The destination -1 stands for a broadcast.
unfoldable pub broadcast_msg : ℕ → ℕ → Msg
broadcast_msg src idx = record {
  hdr = record {
    src_node = src;
    dest_node = minus_one;
    seq_idx = idx % u32_mod;
    msg_size = resp_size;
  };
  key = zeros key_sz;
  value = zeros value_sz;
}

unfoldable pub send_cmt : ℕ → List ℕ → AppContext → AppContext
unfolding broadcast_msg
send_cmt cmt_idx dest_ids ctx =
    broadcast req_commit (msg_bytes (broadcast_msg ctx.node_id cmt_idx)) resp_size dest_ids ctx

-- `int e_idx = response->e_idx`
unfoldable pub e_idx_of : Bytes → Option ℕ
e_idx_of response = do word ← load 24 8 response; some (decode_le word % u32_mod)

unfoldable pub cont_func_cmt : Bytes → AppContext → Option AppContext
cont_func_cmt response ctx = do
  e_idx ← e_idx_of response
  let (done, metadata) = update_cmt_acks e_idx ctx.metadata
  some (record ctx { metadata = metadata; cmt_acked = (ctx.cmt_acked + 1) % u64_mod })

unfoldable pub cont_func_prp : Bytes → AppContext → Option AppContext
cont_func_prp response ctx = do
  e_idx ← e_idx_of response
  let (cmt, metadata) = update_prp_acks e_idx ctx.metadata
  let counted : AppContext = record ctx {
    metadata = metadata;
    prp_acked = (ctx.prp_acked + 1) % u64_mod;
  }
  if cmt then some (send_cmt e_idx metadata.followers counted) else some counted

unfoldable pub send_req : ℕ → List ℕ → AppContext → Option AppContext
send_req idx dest_ids ctx = do
  let buf = msg_bytes (broadcast_msg ctx.node_id idx)
  (accepted, batcher) ← enqueue_req batch_count msg_size ctx.batcher buf
  if accepted then some (record ctx { batcher = batcher }) else do
    body ← load 0 (msg_size * batch_count) (serialize_batch batcher)
    let sent = broadcast req_propose body cmt_msg_size dest_ids (record ctx { batcher = batcher })
    (again, batcher') ← enqueue_req batch_count msg_size (empty_buff sent.batcher) buf
    some (record sent {
      batcher = batcher';
      enqueued_msgs_cnt = (sent.enqueued_msgs_cnt + 1) % u64_mod;
    })

unfoldable pub flash_batcher : List ℕ → AppContext → Option AppContext
flash_batcher dest_ids ctx = do
  body ← load 0 (msg_size * ctx.batcher.cur_idx) (serialize_batch ctx.batcher)
  some (broadcast req_propose body resp_size dest_ids ctx)

unfoldable pub emit_mismatches : List (ℕ × ℕ) → AppContext → AppContext
unfolding emit
emit_mismatches [] ctx = ctx
emit_mismatches (m ∷ ms) ctx = emit_mismatches ms (emit (report m) ctx)

-- The acknowledgement of both handlers.
unfoldable pub ack_msg : ℕ → ℕ → CmtMsg
ack_msg node e_idx = record {
  hdr = record zero_header { src_node = node };
  s_idx = 0;
  e_idx = e_idx;
}

unfoldable pub req_handler_prp : Bytes → AppContext → Option AppContext
unfolding emit emit_mismatches
req_handler_prp recv_data ctx = do
  batched_msg ← deserialize recv_data (length recv_data)
  found ← parse_indexes batched_msg (length recv_data)
  let seen = emit_mismatches found.mismatches ctx
  some (
      emit (reply (cmt_msg_bytes (ack_msg seen.node_id (sign_extend found.max_idx))))
        (record seen { prp_count = (seen.prp_count + 1) % u64_mod }))

unfoldable pub req_handler_cmt : Bytes → AppContext → Option AppContext
unfolding emit
req_handler_cmt recv_data ctx = do
  seq_idx ← load 8 4 recv_data
  some (
      emit (reply (cmt_msg_bytes (ack_msg ctx.node_id (decode_le seq_idx))))
        (record ctx { cmt_count = (ctx.cmt_count + 1) % u64_mod }))
