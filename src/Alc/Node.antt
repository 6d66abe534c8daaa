-- ===== src/Alc/Node.antt =====
-- alc/main.cc, alc/msg.h and alc/app_context.h: the context of a node, its batcher, its handlers and
-- continuations, and what they send. `tail` is what the end of a new request buffer holds, where
-- nothing is copied to, by round and destination. Messages are those of cr/msg.h.
use replication_protos.Prelude.{
  ℕ, ◌+◌, ◌*◌, ◌%◌, Bool, true, false, Option, some, List, [], ◌∷◌, ◌++◌, ltb, if◌then◌else◌, ◌>>=◌,
  Bytes, zeros, load, store, length, decode_le, encode_le, u32_mod, u64_mod, minus_one, sign_extend,
}
use replication_protos.Rpc.{Effect, request, reply, Sessions, session_of, touch}
use replication_protos.Batch.{deserialize}
use replication_protos.Chain.Msg.{
  Header, Msg, msg_bytes, header_bytes, zero_header, key_sz, value_sz, msg_size, batch_count,
}
use replication_protos.Alc.Rounds.{
  Metadata, tot_acks, add_recv_req, count_ack, count_cmt, can_commit, commit_completed_rds,
}

abbrev pub req_send : ℕ
req_send = 1

abbrev pub req_commit : ℕ
req_commit = 2

-- `kMsgSize`, `sizeof(cmt_msg)` and `sizeof(consensus_round)`.
abbrev pub resp_size : ℕ
resp_size = 128

abbrev pub cmt_msg_size : ℕ
cmt_msg_size = 32

abbrev pub round_size : ℕ
round_size = 8

abbrev pub batch_sz : ℕ
batch_sz = batch_count * msg_size + round_size

pub record CmtMsg : Type 0 where
  pub hdr : Header
  pub cns_rd : ℕ
  pub e_idx : ℕ

unfoldable pub cmt_msg_bytes : CmtMsg → Bytes
cmt_msg_bytes m = header_bytes m.hdr ++ (encode_le 8 m.cns_rd ++ encode_le 8 m.e_idx)

-- `msg_manager`: the number of the round lies in front of the messages.
pub record Batcher : Type 0 where
  pub buffer : Bytes
  pub cur_idx : ℕ
  pub count : ℕ

abbrev pub init : Batcher
init = record { buffer = encode_le 8 0 ++ zeros (batch_count * msg_size); cur_idx = 0; count = 0 }

unfoldable pub enqueue_req : Bytes → Batcher → Option (Bool × Batcher)
enqueue_req buf b =
    if ltb b.cur_idx batch_count
    then (do
      buffer ← store (round_size + b.cur_idx * msg_size) buf b.buffer
      some (true, record b { buffer = buffer; cur_idx = (b.cur_idx + 1) % u32_mod }))
    else some (false, b)

unfoldable pub serialize_batch : Batcher → Bytes
serialize_batch b = b.buffer

unfoldable pub empty_buff : Batcher → Option Batcher
empty_buff b = do
  buffer ← store 0 (encode_le 8 ((b.count + 1) % u64_mod)) b.buffer
  some (record { buffer = buffer; cur_idx = 0; count = (b.count + 1) % u64_mod })

unfoldable pub get_consensus_round : Bytes → Option ℕ
get_consensus_round buff = do rd ← load 0 round_size buff; some (decode_le rd)

pub record AppContext : Type 0 where
  pub node_id : ℕ
  pub instance_id : ℕ
  pub batcher : Batcher
  pub metadata : Metadata
  pub enqueued_msgs_cnt : ℕ
  pub connections : Sessions
  pub trace : List (Effect (Unit {0}))

-- What a run of the event loop calls: the two request handlers and the two continuations. The
-- response of a batch is read after its buffer was freed: the event carries what is read then.
pub data Event : Type 0 where
  batch_sent : Bytes → Event
  committed : Bytes → Event
  send_response : Bytes → Event
  cmt_response : Bytes → Event

unfoldable pub emit : Effect (Unit {0}) → AppContext → AppContext
emit e ctx = record ctx { trace = ctx.trace ++ (e ∷ []) }

unfoldable pub send : ℕ → Bytes → ℕ → ℕ → AppContext → AppContext
unfolding emit
send type body resp dest ctx =
    emit (request (session_of dest ctx.connections) type body resp)
      (record ctx { connections = touch dest ctx.connections })

-- The loops over `dest_ids`: what each destination gets.
unfoldable pub broadcast : ℕ → (ℕ → Bytes) → ℕ → List ℕ → AppContext → AppContext
unfolding send
broadcast type body resp [] ctx = ctx
broadcast type body resp (dest ∷ dests) ctx =
    broadcast type body resp dests (send type (body dest) resp dest ctx)

-- The destination -1 stands for a broadcast.
unfoldable pub broadcast_msg : ℕ → ℕ → Msg
broadcast_msg src idx = record {
  hdr = record {
    src_node = src;
    dest_node = minus_one;
    seq_idx = idx % u32_mod;
    msg_size = resp_size;
  };
  key = zeros key_sz;
  value = zeros value_sz;
}

unfoldable pub send_cmt : ℕ → List ℕ → AppContext → AppContext
unfolding broadcast_msg
send_cmt cmt_idx dest_ids ctx =
    broadcast req_commit (λ dest. msg_bytes (broadcast_msg ctx.node_id cmt_idx)) resp_size dest_ids
      ctx

-- `int cns_rd = response->cns_rd`
unfoldable pub cns_rd_of : Bytes → Option ℕ
cns_rd_of response = do word ← load 16 8 response; some (decode_le word % u32_mod)

unfoldable pub cont_func_cmt : Bytes → AppContext → Option AppContext
cont_func_cmt response ctx = do
  cns_rd ← cns_rd_of response
  counted ← count_cmt (sign_extend cns_rd) ctx.metadata
  metadata ← commit_completed_rds tot_acks counted
  some (record ctx { metadata = metadata })

-- The end of `cont_func_send` and of `req_handler_send`.
unfoldable pub try_commit : ℕ → AppContext → Option AppContext
try_commit cns_rd ctx = do
  (can_cmt, metadata) ← can_commit tot_acks cns_rd ctx.metadata
  let checked : AppContext = record ctx { metadata = metadata }
  some (if can_cmt then send_cmt cns_rd metadata.followers checked else checked)

unfoldable pub cont_func_send : Bytes → AppContext → Option AppContext
cont_func_send response ctx = do
  cns_rd ← cns_rd_of response
  metadata ← count_ack (sign_extend cns_rd) ctx.metadata
  try_commit cns_rd (record ctx { metadata = metadata })

-- The acknowledgement of both handlers, in zeroed memory.
unfoldable pub ack_msg : ℕ → ℕ → CmtMsg
ack_msg node cns_rd = record {
  hdr = record zero_header { src_node = node };
  cns_rd = cns_rd;
  e_idx = 0;
}

-- All requests are filed under the sender 0.
unfoldable pub req_handler_send : Bytes → AppContext → Option AppContext
unfolding emit
req_handler_send recv_data ctx = do
  batched_msg ← deserialize recv_data (length recv_data)
  cns_rd ← get_consensus_round batched_msg
  metadata ← count_ack cns_rd (add_recv_req 0 batched_msg (cns_rd % u32_mod) ctx.metadata)
  try_commit (cns_rd % u32_mod) (
      emit (reply (cmt_msg_bytes (ack_msg ctx.node_id cns_rd)))
        (record ctx { metadata = metadata }))

-- `hdr.seq_idx` of the message that the request holds.
unfoldable pub seq_idx_of : Bytes → Option ℕ
seq_idx_of recv_data = do word ← load 8 4 recv_data; some (decode_le word)

unfoldable pub req_handler_cmt : Bytes → AppContext → Option AppContext
unfolding emit
req_handler_cmt recv_data ctx = do
  seq_idx ← seq_idx_of recv_data
  counted ← count_cmt seq_idx ctx.metadata
  metadata ← commit_completed_rds tot_acks counted
  some (
      emit (reply (cmt_msg_bytes (ack_msg ctx.node_id seq_idx)))
        (record ctx { metadata = metadata }))

module _ (tail : ℕ → ℕ → Bytes) where
  -- The own batch is filed under its round, and the round is the current one.
  unfoldable pub file_batch : AppContext → Option AppContext
  file_batch ctx = do
    own ← load 0 (msg_size * batch_count) (serialize_batch ctx.batcher)
    some (record ctx {
      metadata = record (add_recv_req ctx.node_id own (ctx.batcher.count % u32_mod) ctx.metadata) {
        cur_rd = ctx.batcher.count % u32_mod;
      };
    })

  -- The request has `batch_sz` bytes, of which the last 8 are not copied.
  unfoldable pub send_req : ℕ → List ℕ → AppContext → Option AppContext
  send_req idx dest_ids ctx = do
    let buf = msg_bytes (broadcast_msg ctx.node_id idx)
    (accepted, batcher) ← enqueue_req buf ctx.batcher
    if accepted then some (record ctx { batcher = batcher }) else (do
      body ← load 0 (msg_size * batch_count) (serialize_batch batcher)
      filed ← file_batch (
          broadcast req_send (λ dest. body ++ tail batcher.count dest) cmt_msg_size dest_ids
            (record ctx { batcher = batcher }))
      emptied ← empty_buff filed.batcher
      (again, batcher') ← enqueue_req buf emptied
      some (record filed {
        batcher = batcher';
        enqueued_msgs_cnt = (filed.enqueued_msgs_cnt + 1) % u64_mod;
      }))

  -- Unlike `send_req` it counts an acknowledgement of the own batch.
  unfoldable pub flash_batcher : List ℕ → AppContext → Option AppContext
  flash_batcher dest_ids ctx = do
    body ← load 0 (msg_size * ctx.batcher.cur_idx) (serialize_batch ctx.batcher)
    filed ←
        file_batch
          (broadcast req_send (λ dest. body ++ tail ctx.batcher.count dest) resp_size dest_ids ctx)
    metadata ← count_ack filed.batcher.count filed.metadata
    emptied ← empty_buff filed.batcher
    some (record filed { metadata = metadata; batcher = emptied })
