-- ===== src/BftChain/Proto.antt =====
-- bft-cr/msg.h and bft-cr/proto.h: the layout of a message, and the checks of an execution.
-- A message of the head is the client's request, the leader's output (64 bytes each), the leader's
-- index (4 bytes) and room for the outputs of the others.
use replication_protos.Prelude.{
  ℕ, zero, suc, ◌+◌, ◌-◌, ◌*◌, ◌%◌, Bool, true, false, not, Option, none, some, List, [], ◌∷◌, ◌++◌,
  ◌==◌, if◌then◌else◌, Bytes, zeros, load, store, same_bytes, encode_le, decode_le, u32_mod,
}
use replication_protos.Outcome.{Outcome, ok, exited, ◌>>=◌, access}
use replication_protos.Batch.{Batcher, serialize_batch}
use replication_protos.Attest.{Platform, hmac_size, sign_msg, verify_get_msg}
use replication_protos.Chain.Msg.{Header, header_bytes, msg_size, Indexes, no_indexes, parse_from}

abbrev pub head : ℕ
head = 0

abbrev pub middle : ℕ
middle = 1

abbrev pub tail : ℕ
tail = 2

abbrev pub key_sz : ℕ
key_sz = 8

abbrev pub value_sz : ℕ
value_sz = 39

pub record Msg : Type 0 where
  pub hdr : Header
  pub key : Bytes
  pub value : Bytes
  pub operation : ℕ

unfoldable pub msg_bytes : Msg → Bytes
msg_bytes m = header_bytes m.hdr ++ (m.key ++ (m.value ++ (m.operation ∷ [])))

abbrev pub batch_count : ℕ
batch_count = 1

-- `4 * sizeof(msg) + sizeof(uint32_t)`
abbrev pub message_size : ℕ
message_size = msg_size + msg_size + 4 + 2 * msg_size

-- What the handlers print when something is wrong.
pub data Diagnostic : Type 0 where
  verifying leader_output leader_index output_differs : Diagnostic
  verification_failed leader_failed outputs_failed : Diagnostic
  execution_failed_1 execution_failed_2 not_head : Diagnostic
  index_mismatch : ℕ × ℕ → Diagnostic

-- `struct state`
pub record State : Type 0 where
  pub cmt_idx : ℕ

-- The result of a check: its answer, the state after it, and what it printed.
pub record Verdict : Type 0 where
  pub holds : Bool
  pub st : State
  pub printed : List Diagnostic

-- `left` more copies of the message, from `offset` on.
unfoldable pub copy_outputs : ℕ → ℕ → Bytes → Bytes → Option Bytes
copy_outputs zero offset m block = some block
copy_outputs (suc left) offset m block = elim (store offset m block) [
  | none ↦ none
  | some block' ↦ copy_outputs left (offset + msg_size) m block'
]

-- Only the index and the outputs are filled in.
unfoldable pub construct_msg : ℕ → Msg → Outcome Bytes
unfolding copy_outputs
construct_msg node_id m = do
  ptr ← access (
      store (2 * msg_size) (encode_le 4 m.hdr.seq_idx)
        (zeros (msg_size + msg_size + 4 + node_id * msg_size)))
  access (copy_outputs node_id (2 * msg_size + 4) (msg_bytes m) ptr)

-- The index counts up as soon as the output matches the request, also if it then differs from the
-- leader's.
unfoldable pub check_leader : Bytes → State → Outcome Verdict
check_leader ptr st = do
  creq ← access (load 0 msg_size ptr)
  output ← access (load msg_size msg_size ptr)
  if not (same_bytes creq output)
      then ok (record { holds = false; st = st; printed = leader_output ∷ [] })
      else do
        let st' : State = record { cmt_idx = (st.cmt_idx + 1) % u32_mod }
        word ← access (load (msg_size + msg_size) 4 ptr)
        if not (st'.cmt_idx == decode_le word)
            then ok (record { holds = false; st = st'; printed = leader_index ∷ [] })
            else ok (record { holds = true; st = st'; printed = [] })

-- `left` more outputs, from `offset` on.
unfoldable pub compare_outputs : ℕ → ℕ → Bytes → Bytes → Outcome (Bool × List Diagnostic)
compare_outputs zero offset creq ptr = ok (true, [])
compare_outputs (suc left) offset creq ptr =
    let rest = compare_outputs left (offset + msg_size) creq ptr in
    (do
      output ← access (load offset msg_size ptr)
      if not (same_bytes creq output) then ok (false, output_differs ∷ []) else rest)

-- The outputs of the nodes `1` to `node_id - 1`.
unfoldable pub check_outputs : Bytes → ℕ → Outcome (Bool × List Diagnostic)
unfolding compare_outputs
check_outputs ptr node_id = do
  creq ← access (load msg_size msg_size ptr)
  compare_outputs (node_id - 1) (2 * msg_size + 4) creq ptr

unfoldable pub verify_execution : Bytes → ℕ → State → Outcome Verdict
unfolding check_leader
verify_execution input node_id st = check_leader input st

module _ (openssl : Bytes → Bytes → Bytes) (platform : Platform) where
  -- The whole buffer is signed, whatever `cur_idx` is.
  unfoldable pub attest : Batcher → Outcome (ℕ × Bytes)
  attest b = do
    let alloc_sz = hmac_size + 8 + batch_count * message_size
    plain ← access (load 0 (batch_count * message_size) (serialize_batch b))
    (ret, buff) ← access (sign_msg openssl platform plain (zeros alloc_sz))
    if not ret then exited 0 else ok (alloc_sz, buff)

  unfoldable pub verify : Bytes → Outcome (ℕ × Bytes)
  verify input = access (verify_get_msg openssl platform input)

  -- `payload` is the verified message: its first 68 bytes are appended as this node's output.
  unfoldable pub construct_msg_middle : Bytes → ℕ → Bytes → Outcome (ℕ × Bytes)
  construct_msg_middle leader_msg msg_sz payload = do
    let sz = msg_sz + (hmac_size + 8 + msg_size + 4)
    first ← access (load 0 msg_sz leader_msg)
    part ← access (store 0 first (zeros (msg_sz + msg_size + 4)))
    output ← access (load 0 (msg_size + 4) payload)
    whole ← access (store msg_sz output part)
    (ret, signed_data) ← access (sign_msg openssl platform whole (zeros sz))
    if not ret then exited 0 else ok (sz, signed_data)

  -- The tail verifies the inner message again. The `int` that `verify` returns is kept as a `bool`,
  -- so `-1` counts as success.
  unfoldable pub verify_execution_tail : Bytes → ℕ → State → Outcome Verdict
  unfolding check_outputs
  verify_execution_tail input node_id st =
      if node_id == tail
      then (do
        (ret, inner) ← verify input
        if ret == 0
            then ok (record { holds = false; st = st; printed = verification_failed ∷ [] })
            else do
              leader ← check_leader inner st
              if not leader.holds
                  then ok (record leader { printed = leader.printed ++ (leader_failed ∷ []) })
                  else do
                    (same, printed) ← check_outputs inner node_id
                    if not same
                        then ok (record leader {
                          holds = false;
                          printed = leader.printed ++ (printed ++ (outputs_failed ∷ []));
                        })
                        else ok (record leader { printed = leader.printed ++ printed }))
      else if node_id == middle
      then check_leader input st
      else ok (record { holds = true; st = st; printed = [] })

-- The loop of `parse_indexes` is that of cr, with a batch of one message.
unfoldable pub parse_indexes : Bytes → Outcome Indexes
parse_indexes msgs = access (parse_from batch_count batch_count 0 msgs no_indexes)
