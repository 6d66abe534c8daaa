-- ===== src/Pb/Node.antt =====
-- bft-pb/main.cc: the context of a node, the handler of a proposal, the continuation, and what they
-- send. `static uint32_t leader_exp_cnt` is a field. The local `ack_msg` and the buffer of the
-- response are arguments. Members that nothing uses are left out.
use replication_protos.Prelude.{
  ℕ, zero, suc, ◌+◌, ◌-◌, ◌*◌, ◌/◌, ◌%◌, Bool, not, List, [], ◌∷◌, ◌++◌, ◌==◌, if◌then◌else◌, Bytes,
  zeros, load, concat, same_bytes, drop, encode_le, decode_le, u32_mod, u64_mod,
}
use replication_protos.Outcome.{Outcome, ok, exited, ◌>>=◌, access}
use replication_protos.Attest.{Platform, hmac_size, get_attestation}
use replication_protos.Rpc.{Effect, request, reply, report, Sessions, session_of, touch}
use replication_protos.Batch.{Batcher, enqueue_req, serialize_batch, empty_buff}
use replication_protos.Tlog.Format.{
  PMsg, cmd_size, out_size, hash_size, p_msg_size, p_fields, memcpy_into_p_msg, f_get_ack_val,
  f_get_sender, f_get_state,
}
use replication_protos.Tlog.Node.{text_size, check_mac, sign, req_propose}
use replication_protos.Pb.Format.{AckMsg, ack_msg_size, memcpy_ack_into_buffer}

abbrev pub batch_count : ℕ
batch_count = 16

pub data Diagnostic : Type 0 where
  bad_size bad_mac wrong_ack : Diagnostic

pub record Metadata : Type 0 where
  pub cmt_idx : ℕ
  pub followers : List ℕ
  pub mock_h1 : Bytes
  pub mock_h2 : Bytes
  pub my_last_state : Bytes
  pub f1_last_state : Bytes
  pub f2_last_state : Bytes

pub record AppContext : Type 0 where
  pub node_id : ℕ
  pub instance_id : ℕ
  pub count_replies : ℕ
  pub batcher : Batcher
  pub metadata : Metadata
  pub enqueued_msgs_cnt : ℕ
  pub connections : Sessions
  pub leader_exp_cnt : ℕ
  pub trace : List (Effect Diagnostic)

-- What a run of the event loop calls.
pub data Event : Type 0 where
  proposed : Bytes → AckMsg → Bytes → Event
  prp_response : Bytes → Event

unfoldable pub emit : Effect Diagnostic → AppContext → AppContext
emit e ctx = record ctx { trace = ctx.trace ++ (e ∷ []) }

unfoldable pub emit_unless : Bool → Diagnostic → AppContext → AppContext
unfolding emit
emit_unless fine d ctx = if fine then ctx else emit (report d) ctx

unfoldable pub send : Bytes → ℕ → ℕ → AppContext → AppContext
unfolding emit
send body resp dest ctx =
    emit (request (session_of dest ctx.connections) req_propose body resp)
      (record ctx { connections = touch dest ctx.connections })

unfoldable pub broadcast : Bytes → ℕ → List ℕ → AppContext → AppContext
unfolding send
broadcast body resp [] ctx = ctx
broadcast body resp (dest ∷ dests) ctx = broadcast body resp dests (send body resp dest ctx)

-- The 32 bytes at `f_get_state` are copied for the followers 1 and 2.
unfoldable pub update_f_hashes : ℕ → Bytes → Metadata → Outcome Metadata
update_f_hashes src_node response meta =
    if src_node == 1
    then (do
      hash ← access (load f_get_state hash_size response)
      ok (record meta { mock_h1 = hash }))
    else if src_node == 2
    then (do
      hash ← access (load f_get_state hash_size response)
      ok (record meta { mock_h2 = hash }))
    else ok meta

-- The request that `send_req` builds in zeroed memory.
unfoldable pub request_msg : ℕ → Metadata → PMsg
request_msg idx meta = record {
  cmd = zeros cmd_size;
  output = encode_le 4 idx ++ zeros (out_size - 4);
  meta = record {
    cnt = idx % u32_mod;
    prev_h = zeros hash_size;
    f1_prev = meta.mock_h1;
    f2_prev = meta.mock_h2;
  };
}

-- A request as it lies in memory: the struct has no padding.
abbrev pub p_msg_bytes : PMsg → Bytes
p_msg_bytes m = concat (p_fields m)

-- The state that a follower expects of the other one.
unfoldable pub other_state : AppContext → Bytes
other_state ctx =
    if ctx.node_id == 1 then ctx.metadata.f2_last_state else ctx.metadata.f1_last_state

unfoldable pub followers_validation : PMsg → AppContext → Outcome AppContext
unfolding other_state
followers_validation recv_msg ctx =
    if not (recv_msg.meta.cnt == ctx.leader_exp_cnt) then exited 128 else (do
      output ← access (load 0 4 recv_msg.output)
      if not (decode_le output == ctx.leader_exp_cnt)
          then exited 128
          else if not (same_bytes recv_msg.meta.f1_prev ctx.metadata.my_last_state)
          then exited 128
          else if not (same_bytes recv_msg.meta.f2_prev (other_state ctx))
          then exited 128
          else ok (record ctx {
            leader_exp_cnt = (ctx.leader_exp_cnt + 1) % u32_mod;
            metadata = record ctx.metadata { cmt_idx = (ctx.metadata.cmt_idx + 1) % u32_mod };
          }))

-- `left` more requests of a batch, from `offset` on.
unfoldable pub validate_all : ℕ → ℕ → Bytes → AppContext → Outcome AppContext
validate_all zero offset recv_data ctx = ok ctx
validate_all (suc left) offset recv_data ctx = do
  here ← access (load offset p_msg_size recv_data)
  recv_msg ← access (memcpy_into_p_msg here)
  ctx' ← followers_validation recv_msg ctx
  validate_all left (offset + p_msg_size) recv_data ctx'

unfoldable pub ack_of : AppContext → AckMsg → AckMsg
ack_of ctx uninit = record uninit {
  ack = 1 ∷ [];
  output = encode_le 4 ctx.metadata.cmt_idx ++ drop 4 uninit.output;
  cmt = ctx.metadata.cmt_idx;
  sender = ctx.node_id;
}

module _ (openssl : Bytes → Bytes → Bytes) (platform : Platform) where
  unfoldable pub cont_func_prp : Bytes → AppContext → Outcome AppContext
  unfolding emit_unless
  cont_func_prp response ctx = do
    let counted : AppContext = record ctx { count_replies = (ctx.count_replies + 1) % u32_mod }
    valid ← check_mac openssl platform response
    sender_id ← access (f_get_sender response)
    ack ← access (f_get_ack_val response)
    metadata ← update_f_hashes sender_id response counted.metadata
    ok (
        emit_unless ack wrong_ack
          (emit_unless valid bad_mac (record counted { metadata = metadata })))

  -- All followers get the same bytes.
  unfoldable pub send_req : ℕ → List ℕ → AppContext → Outcome AppContext
  unfolding broadcast
  send_req idx dest_ids ctx = do
    let msg = p_msg_bytes (request_msg idx ctx.metadata)
    (accepted, batcher) ← access (enqueue_req batch_count p_msg_size ctx.batcher msg)
    if accepted then ok (record ctx { batcher = batcher }) else (do
      batch ← access (load 0 (p_msg_size * batch_count) (serialize_batch batcher))
      body ← sign openssl platform (p_msg_size * batch_count) (batch ++ zeros hmac_size)
      let out =
          broadcast body (ack_msg_size + hmac_size) dest_ids (record ctx { batcher = batcher })
      (again, batcher') ← access (enqueue_req batch_count p_msg_size (empty_buff out.batcher) msg)
      ok (record out {
        batcher = batcher';
        enqueued_msgs_cnt = (out.enqueued_msgs_cnt + 1) % u64_mod;
      }))

  -- The last batch is not signed.
  unfoldable pub flash_batcher : List ℕ → AppContext → Outcome AppContext
  unfolding broadcast
  flash_batcher dest_ids ctx = do
    batch ← access (load 0 (p_msg_size * ctx.batcher.cur_idx) (serialize_batch ctx.batcher))
    ok (broadcast batch p_msg_size dest_ids ctx)

  -- The end of the handler of a proposal: the acknowledgement, its state and the signed response.
  unfoldable pub make_reply : AckMsg → Bytes → AppContext → Outcome (AppContext × Bytes)
  make_reply uninit_ack uninit_resp ctx = do
    let ack = ack_of ctx uninit_ack
    let (state_mac, sz) = get_attestation openssl platform ack.state
    state ← access (load 0 hash_size state_mac)
    resp ← access (load 0 (ack_msg_size + hmac_size) uninit_resp)
    written ← access (memcpy_ack_into_buffer (record ack { state = state }) resp)
    body ← sign openssl platform ack_msg_size written
    ok (
      record ctx {
        metadata =
            (if ctx.node_id == 1
              then record ctx.metadata { f1_last_state = state }
              else record ctx.metadata { f2_last_state = state });
      },
      body,
    )

  -- A wrong size and a wrong code are only reported.
  unfoldable pub req_handler_prp : Bytes → AckMsg → Bytes → AppContext → Outcome AppContext
  unfolding emit emit_unless
  req_handler_prp recv_data uninit_ack uninit_resp ctx = do
    valid ← check_mac openssl platform recv_data
    validated ← validate_all (text_size recv_data / p_msg_size) 0 recv_data (
        emit_unless valid bad_mac
          (emit_unless (text_size recv_data % p_msg_size == 0) bad_size ctx))
    (ctx', body) ← make_reply uninit_ack uninit_resp validated
    ok (emit (reply body) ctx')
