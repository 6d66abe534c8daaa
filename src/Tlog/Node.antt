-- ===== src/Tlog/Node.antt =====
-- trusted-log/main.cc: the context of a node, its handlers and what they send. What a buffer or a local
-- variable holds before it is written is an argument.
use replication_protos.Prelude.{
  ℕ, zero, suc, ◌+◌, ◌-◌, ◌*◌, ◌/◌, ◌%◌, Bool, true, Option, List, [], ◌∷◌, ◌++◌, ◌==◌,
  if◌then◌else◌, Bytes, zeros, load, store, same_bytes, length, drop, encode_le, u32_mod, u64_mod,
}
use replication_protos.Outcome.{Outcome, ok, ◌>>=◌, access}
use replication_protos.Attest.{Platform, fpga, amd, sgx, native, hmac_size, get_attestation}
use replication_protos.Rpc.{Effect, request, reply, report, Sessions, session_of, touch}
use replication_protos.Batch.{Batcher, enqueue_req, serialize_batch, empty_buff}
use replication_protos.Tlog.Format.{
  PMsg, AckMsg, cmd_size, out_size, hash_size, p_msg_size, ack_msg_size, msg_size,
  memcpy_p_msg_into_buffer, memcpy_into_p_msg, memcpy_ack_into_buffer,
}
use replication_protos.Tlog.Log.{LogEntry}
use replication_protos.Tlog.Metadata.{Metadata, batch_count, log, log_audit}

abbrev pub leader : ℕ
leader = 0

abbrev pub follower : ℕ
follower = 1

abbrev pub req_propose : ℕ
req_propose = 1

abbrev pub req_terminate : ℕ
req_terminate = 5

pub data Diagnostic : Type 0 where
  bad_size bad_mac log_full : Diagnostic

pub record AppContext : Type 0 where
  pub node_id : ℕ
  pub instance_id : ℕ
  pub batcher : Batcher
  pub metadata : Metadata
  pub count_replies : ℕ
  pub finished_nodes : ℕ
  pub stop : Bool
  pub enqueued_msgs_cnt : ℕ
  pub connections : Sessions
  pub prp_count : ℕ
  pub trace : List (Effect Diagnostic)

-- What is uninitialised in the handler of a proposal: the entry that `log` makes, the local `ack_msg`,
-- and the buffer of the response.
pub record Uninit : Type 0 where
  pub entry : LogEntry
  pub ack : AckMsg
  pub resp : Bytes

-- What a run of the event loop calls: the two request handlers and the two continuations.
pub data Event : Type 0 where
  proposed : Bytes → Uninit → Event
  terminated : AckMsg → Bytes → Event
  prp_response : Bytes → LogEntry → Event
  terminate_response : Event

unfoldable pub emit : Effect Diagnostic → AppContext → AppContext
emit e ctx = record ctx { trace = ctx.trace ++ (e ∷ []) }

unfoldable pub emit_unless : Bool → Diagnostic → AppContext → AppContext
unfolding emit
emit_unless fine d ctx = if fine then ctx else emit (report d) ctx

unfoldable pub send : ℕ → Bytes → ℕ → ℕ → AppContext → AppContext
unfolding emit
send type body resp dest ctx =
    emit (request (session_of dest ctx.connections) type body resp)
      (record ctx { connections = touch dest ctx.connections })

unfoldable pub broadcast : ℕ → Bytes → ℕ → List ℕ → AppContext → AppContext
unfolding send
broadcast type body resp [] ctx = ctx
broadcast type body resp (dest ∷ dests) ctx =
    broadcast type body resp dests (send type body resp dest ctx)

unfoldable pub cont_func_terminate : AppContext → AppContext
cont_func_terminate ctx = record ctx { finished_nodes = (ctx.finished_nodes + 1) % u32_mod }

-- The request that `send_req` builds in zeroed memory.
unfoldable pub request_msg : ℕ → Metadata → PMsg
request_msg idx meta = record {
  cmd = zeros cmd_size;
  output = encode_le 4 idx ++ zeros (out_size - 4);
  meta = record {
    cnt = idx % u32_mod;
    prev_h = zeros hash_size;
    f1_prev = meta.mock_h1;
    f2_prev = meta.mock_h2;
  };
}

-- `buf_sz - _hmac_size` as a `size_t`.
unfoldable pub text_size : Bytes → ℕ
text_size buf = (length buf + (u64_mod - hmac_size)) % u64_mod

-- `apply_protocol` for `left` requests of a batch, from `offset` on.
unfoldable pub apply_protocol : Metadata → Metadata
apply_protocol meta = record meta { cmt_idx = (meta.cmt_idx + 1) % u32_mod }

unfoldable pub apply_all : ℕ → ℕ → Bytes → Metadata → Outcome Metadata
unfolding apply_protocol
apply_all zero offset recv_data meta = ok meta
apply_all (suc left) offset recv_data meta = do
  here ← access (load offset p_msg_size recv_data)
  recv_msg ← access (memcpy_into_p_msg here)
  apply_all left (offset + msg_size) recv_data (apply_protocol meta)

-- The acknowledgement: `ok` is its only flag, and the output starts with the commit index.
unfoldable pub ack_of : Bytes → ℕ → Metadata → AckMsg → AckMsg
ack_of flag node meta uninit = record uninit {
  ack = flag;
  output = encode_le 4 meta.cmt_idx ++ drop 4 uninit.output;
  cmt = meta.cmt_idx;
  sender = node;
  cmd = zeros cmd_size;
}

-- The last command of both handlers: the size is that of `ack_msg` and a code.
unfoldable pub resize : Bytes → Option Bytes
resize resp = load 0 (ack_msg_size + hmac_size) resp

module _ (openssl : Bytes → Bytes → Bytes) (platform : Platform) where
  -- Whether the code at the end of a message is that of the text in front.
  unfoldable pub check_mac : Bytes → Outcome Bool
  unfolding text_size
  check_mac buf = do
    text ← access (load 0 (text_size buf) buf)
    let (calc_mac, len) = get_attestation openssl platform text
    calc ← access (load 0 len calc_mac)
    recv ← access (load (text_size buf) len buf)
    ok (same_bytes calc recv)

  -- Text and authenticator of a message, handed to `log`.
  unfoldable pub log_message : Bytes → LogEntry → Metadata → Outcome (Bool × Metadata)
  unfolding text_size
  log_message buf uninit meta = do
    text ← access (load 0 (text_size buf) buf)
    authenticator ← access (load (text_size buf) hmac_size buf)
    log openssl platform text authenticator uninit meta

  unfoldable pub cont_func_prp : Bytes → LogEntry → AppContext → Outcome AppContext
  unfolding emit_unless
  cont_func_prp response uninit ctx = do
    valid ← check_mac response
    (logged, metadata) ← log_message response uninit ctx.metadata
    ok (
        emit_unless logged log_full (
          emit_unless valid bad_mac (record ctx {
            metadata = metadata;
            count_replies = (ctx.count_replies + 1) % u32_mod;
          })))

  -- The text of `n` bytes of a new buffer, and the code behind it.
  unfoldable pub sign : ℕ → Bytes → Outcome Bytes
  sign n body = do
    text ← access (load 0 n body)
    let (mac, len) = get_attestation openssl platform text
    code ← access (load 0 len mac)
    access (store (length body - hmac_size) code body)

  unfoldable pub send_req_finito : Bytes → List ℕ → AppContext → AppContext
  unfolding broadcast
  send_req_finito uninit dest_ids ctx =
      broadcast req_terminate uninit (msg_size + hmac_size) dest_ids ctx

  -- All followers get the same bytes.
  unfoldable pub send_req : Bool → ℕ → List ℕ → AppContext → Outcome AppContext
  unfolding broadcast
  send_req audit idx dest_ids ctx = do
    buf ← access (memcpy_p_msg_into_buffer (request_msg idx ctx.metadata) (zeros p_msg_size))
    (accepted, batcher) ← access (enqueue_req batch_count msg_size ctx.batcher buf)
    sent ←
        (if accepted then ok (record ctx { batcher = batcher }) else (do
          batch ← access (load 0 (msg_size * batch_count) (serialize_batch batcher))
          body ← sign (msg_size * batch_count) (batch ++ zeros hmac_size)
          let out =
              broadcast req_propose body (ack_msg_size + hmac_size) dest_ids
                (record ctx { batcher = batcher })
          (again, batcher') ← access (enqueue_req batch_count msg_size (empty_buff out.batcher) buf)
          ok (record out {
            batcher = batcher';
            enqueued_msgs_cnt = (out.enqueued_msgs_cnt + 1) % u64_mod;
          })))
    metadata ← log_audit openssl platform audit sent.metadata
    ok (record sent { metadata = metadata })

  -- How much of the last batch is signed depends on the build.
  unfoldable pub flash_size : Platform → ℕ → ℕ
  flash_size fpga cur_idx = msg_size * cur_idx
  flash_size sgx cur_idx = msg_size * batch_count
  flash_size amd cur_idx = msg_size * batch_count
  flash_size native cur_idx = msg_size * cur_idx

  unfoldable pub flash_batcher : List ℕ → AppContext → Outcome AppContext
  unfolding broadcast
  flash_batcher dest_ids ctx = do
    batch ← access (load 0 (msg_size * ctx.batcher.cur_idx) (serialize_batch ctx.batcher))
    body ← sign (flash_size platform ctx.batcher.cur_idx) (batch ++ zeros hmac_size)
    ok (broadcast req_propose body (ack_msg_size + hmac_size) dest_ids ctx)

  -- The end of the handler of a proposal: the acknowledgement, its state and the signed response.
  unfoldable pub make_reply : Uninit → ℕ → Metadata → Outcome (Metadata × Bytes)
  make_reply uninit node applied = do
    let ack = ack_of (1 ∷ []) node applied uninit.ack
    let (state_mac, sz) = get_attestation openssl platform ack.state
    state ← access (load 0 hash_size state_mac)
    resp ← access (resize uninit.resp)
    written ← access (memcpy_ack_into_buffer (record ack { state = state }) resp)
    body ← sign ack_msg_size written
    ok (
      (if node == 1
          then record applied { f1_last_state = state }
          else record applied { f2_last_state = state }),
      body,
    )

  -- A wrong size and a wrong code are only reported.
  unfoldable pub req_handler_prp : Bytes → Uninit → AppContext → Outcome AppContext
  unfolding emit emit_unless text_size
  req_handler_prp recv_data uninit ctx = do
    let seen = emit_unless (text_size recv_data % msg_size == 0) bad_size ctx
    valid ← check_mac recv_data
    (logged, logged_meta) ← log_message recv_data uninit.entry seen.metadata
    applied ← apply_all (text_size recv_data / msg_size) 0 recv_data logged_meta
    (metadata, body) ← make_reply uninit seen.node_id applied
    ok (
        emit (reply body) (
          emit_unless logged log_full (
            emit_unless valid bad_mac
              (record seen { metadata = metadata; prp_count = (seen.prp_count + 1) % u64_mod }))))

  -- The flag of the acknowledgement is not set, and the response is not signed.
  unfoldable pub req_handler_finito : AckMsg → Bytes → AppContext → Outcome AppContext
  unfolding emit
  req_handler_finito uninit_ack uninit_resp ctx = do
    resp ← access (resize uninit_resp)
    body ←
        access
          (memcpy_ack_into_buffer (ack_of uninit_ack.ack ctx.node_id ctx.metadata uninit_ack) resp)
    ok (emit (reply body) (record ctx { stop = true }))
