-- ===== src/BftChain/Node.antt =====
-- bft-cr/main.cc: the context of a node and its operations, in the build `THREE_NODE`.
-- `AppContext` is `app_context` with the `static` counters of the two handlers and the trace of what
-- the node has handed to eRPC and printed as an error. `rounds` lists what each run of the event
-- loop delivers. Progress lines, debug output and timing are left out.
use replication_protos.Prelude.{
  ℕ, ◌+◌, ◌%◌, List, [], ◌∷◌, ◌++◌, ◌==◌, if◌then◌else◌, Bytes, zeros, load, length, u32_mod,
  u64_mod, sign_extend, minus_one,
}
use replication_protos.Outcome.{Outcome, ok, ◌>>=◌, access}
use replication_protos.Rpc.{Effect, request, ack, report, Sessions, session_of, touch}
use replication_protos.Batch.{Batcher, enqueue_req, empty_buff, deserialize}
use replication_protos.Attest.{Platform}
use replication_protos.Chain.Msg.{CmtMsg, Indexes, cmt_msg_bytes, zero_header}
use replication_protos.BftChain.Proto.{
  Msg, State, Verdict, Diagnostic, verifying, execution_failed_1, execution_failed_2, not_head,
  index_mismatch, head, middle, tail, key_sz, value_sz, batch_count, message_size, construct_msg,
  attest, verify, verify_execution, verify_execution_tail, construct_msg_middle, parse_indexes,
}

abbrev pub req_forward : ℕ
req_forward = 1

abbrev pub req_commit : ℕ
req_commit = 2

-- `kMsgSize`
abbrev pub resp_size : ℕ
resp_size = 64

pub record AppContext : Type 0 where
  pub node_id : ℕ
  pub instance_id : ℕ
  pub nb_cmts : ℕ
  pub batcher : Batcher
  pub st : State
  pub enqueued_msgs_cnt : ℕ
  pub connections : Sessions
  pub fw_count : ℕ
  pub cmt_count : ℕ
  pub trace : List (Effect Diagnostic)

pub data Event : Type 0 where
  forwarded : Bytes → Event
  committed : Bytes → Event
  completed : Event

unfoldable pub emit : Effect Diagnostic → AppContext → AppContext
emit e ctx = record ctx { trace = ctx.trace ++ (e ∷ []) }

unfoldable pub emit_reports : List Diagnostic → AppContext → AppContext
emit_reports [] ctx = ctx
emit_reports (d ∷ ds) ctx = emit_reports ds (record ctx { trace = ctx.trace ++ (report d ∷ []) })

unfoldable pub emit_mismatches : List (ℕ × ℕ) → AppContext → AppContext
emit_mismatches [] ctx = ctx
emit_mismatches (m ∷ ms) ctx =
    emit_mismatches ms (record ctx { trace = ctx.trace ++ (report (index_mismatch m) ∷ []) })

-- `cont_func` frees the two buffers of a request.
unfoldable pub cont_func : AppContext → AppContext
cont_func ctx = ctx

-- `rpc->enqueue_request(connections[dest], type, req, resp, …)`.
unfoldable pub send : ℕ → ℕ → Bytes → AppContext → AppContext
unfolding emit
send dest type body ctx =
    emit (request (session_of dest ctx.connections) type body resp_size)
      (record ctx { connections = touch dest ctx.connections })

unfoldable pub request_msg : ℕ → ℕ → ℕ → Msg
request_msg src dest idx = record {
  hdr = record { src_node = src; dest_node = dest; seq_idx = idx % u32_mod; msg_size = resp_size };
  key = zeros key_sz;
  value = zeros value_sz;
  operation = 0;
}

unfoldable pub forward_req : ℕ → Bytes → AppContext → AppContext
unfolding send
forward_req dest buff ctx = send dest req_forward buff ctx

unfoldable pub commit_msg : Indexes → CmtMsg
commit_msg found = record {
  hdr = zero_header;
  s_cmt_idx = sign_extend found.min_idx;
  e_cmt_idx = sign_extend found.max_idx;
}

unfoldable pub send_commit_req : ℕ → Bytes → AppContext → Outcome AppContext
unfolding send emit_mismatches
send_commit_req dest buff ctx = do
  found ← parse_indexes buff
  ok (
      send dest req_commit (cmt_msg_bytes (commit_msg found))
        (emit_mismatches found.mismatches ctx))

unfoldable pub req_handler_cmt : Bytes → AppContext → AppContext
unfolding emit
req_handler_cmt recv_data ctx =
    let acked = emit (ack resp_size) (record ctx {
      cmt_count = (ctx.cmt_count + 1) % u64_mod;
      nb_cmts = (ctx.nb_cmts + 1) % u64_mod;
    }) in
    if acked.node_id == head then acked else emit (report not_head) acked

-- What a check that printed `printed` and answered `holds` leaves; `failed` is the handler's own
-- line about a failure.
unfoldable pub settle : Verdict → Diagnostic → AppContext → AppContext
unfolding emit_reports emit
settle v failed ctx =
    let after = emit_reports v.printed (record ctx { st = v.st }) in
    if v.holds then after else emit (report failed) after

-- The part of the handler of `kReqForward` that every node runs: a failed verification is printed,
-- and the message is counted and acknowledged.
unfoldable pub acknowledge : ℕ → AppContext → AppContext
unfolding emit
acknowledge payload_sz ctx =
    let seen = if payload_sz == minus_one then emit (report verifying) ctx else ctx in
    emit (ack resp_size) (record seen { fw_count = (seen.fw_count + 1) % u64_mod })

module _ (openssl : Bytes → Bytes → Bytes) (platform : Platform) where
  unfoldable pub send_req : ℕ → ℕ → AppContext → Outcome AppContext
  unfolding send
  send_req idx dest ctx = do
    buf ← construct_msg ctx.node_id (request_msg ctx.node_id dest idx)
    (accepted, batcher) ← access (enqueue_req batch_count message_size ctx.batcher buf)
    if accepted then ok (record ctx { batcher = batcher }) else do
      (msg_sz, signed) ← attest openssl platform batcher
      body ← access (load 0 msg_sz signed)
      let sent = send dest req_forward body (record ctx { batcher = batcher })
      (again, batcher') ←
          access (enqueue_req batch_count message_size (empty_buff sent.batcher) buf)
      ok (record sent {
        batcher = batcher';
        enqueued_msgs_cnt = (sent.enqueued_msgs_cnt + 1) % u64_mod;
      })

  unfoldable pub flash_batcher : ℕ → AppContext → Outcome AppContext
  unfolding send
  flash_batcher dest ctx = do
    (msg_sz, signed) ← attest openssl platform ctx.batcher
    body ← access (load 0 msg_sz signed)
    ok (send dest req_forward body ctx)

  -- The middle's part of the handler: a failed check is printed, and the message is signed and
  -- forwarded all the same.
  unfoldable pub pass_on : Bytes → Bytes → AppContext → Outcome AppContext
  pass_on batched_msg payload ctx = do
    verdict ← verify_execution payload ctx.node_id ctx.st
    (sz, signed) ← construct_msg_middle openssl platform batched_msg (length batched_msg) payload
    ok (forward_req tail signed (settle verdict execution_failed_1 ctx))

  -- The tail's part: a failed check is printed, and the commit is sent all the same. The indexes are
  -- parsed from the message as it was received.
  unfoldable pub commit : Bytes → Bytes → AppContext → Outcome AppContext
  commit batched_msg payload ctx = do
    verdict ← verify_execution_tail openssl platform payload ctx.node_id ctx.st
    send_commit_req head batched_msg (settle verdict execution_failed_2 ctx)

  -- The handler of `kReqForward`. A message that does not verify is printed, acknowledged, and
  -- handled with the one zero byte that `verify` returns for it.
  unfoldable pub req_handler_fw : Bytes → AppContext → Outcome AppContext
  req_handler_fw recv_data ctx = do
    batched_msg ← access (deserialize recv_data (length recv_data))
    (payload_sz, payload) ← verify openssl platform batched_msg
    let acked = acknowledge payload_sz ctx
    passed ← (if acked.node_id == middle then pass_on batched_msg payload acked else ok acked)
    if passed.node_id == tail then commit batched_msg payload passed else ok passed
