-- ===== src/Tlog/Metadata.antt =====
-- trusted-log/main.cc: `protocol_metadata`, with the log, its validation, and the audit `log_audit`. An
-- entry that the source leaves uninitialised is an argument, `uninit`. Members that nothing uses are left out.
use replication_protos.Prelude.{
  ℕ, zero, suc, ◌+◌, ◌-◌, ◌*◌, ◌%◌, Bool, true, ◌&&◌, List, [], ◌∷◌, ◌==◌, ltb, if◌then◌else◌,
  Bytes, zeros, load, store, same_bytes, length, decode_le, u32_mod,
}
use replication_protos.Outcome.{Outcome, ok, exited, ◌>>=◌, access}
use replication_protos.Attest.{Platform, get_attestation}
use replication_protos.Tlog.Format.{msg_size, ack_size, out_size, cmd_size, hash_size}
use replication_protos.Tlog.Log.{
  LogEntry, TrustedLog, entry_size, append, serialize_tail, serialize_entry, get_log_size,
  get_entry_at, print_entry_at,
}

abbrev pub batch_count : ℕ
batch_count = 1

-- `LogEntry`, the size of an entry's context.
abbrev pub log_entry : ℕ
log_entry = msg_size * batch_count

-- `sizeof(trusted_log<LogEntry>::log_entry)`
abbrev pub slot_size : ℕ
slot_size = entry_size log_entry

pub record Metadata : Type 0 where
  -- The last sequence number audited of each node, `audit_protocol::last_log_seq`.
  pub witness_meta : List (ℕ × ℕ)
  pub last_state_cmt : ℕ
  pub leader : ℕ
  pub cmt_idx : ℕ
  pub followers : List ℕ
  pub mock_h1 : Bytes
  pub mock_h2 : Bytes
  pub tlog : TrustedLog
  pub f1_last_state : Bytes
  pub f2_last_state : Bytes

-- `witness_meta[id].last_log_seq`, and adding to it: a missing key is inserted with 0.
unfoldable pub last_log_seq : ℕ → List (ℕ × ℕ) → ℕ
last_log_seq id [] = 0
last_log_seq id ((k, n) ∷ m) = if k == id then n else last_log_seq id m

unfoldable pub add_log_seq : ℕ → ℕ → List (ℕ × ℕ) → List (ℕ × ℕ)
add_log_seq id by [] = (id, by) ∷ []
add_log_seq id by ((k, n) ∷ m) =
    if k == id then (k, (n + by) % u32_mod) ∷ m else (k, n) ∷ add_log_seq id by m

unfoldable pub update_f_hashes : ℕ → Bytes → Metadata → Metadata
update_f_hashes src_node hash meta =
    if src_node == 1
    then record meta { mock_h1 = hash }
    else if src_node == 2
    then record meta { mock_h2 = hash }
    else meta

-- The fields of an acknowledgement at `ptr`. The command is looked for 32 bytes behind the sender.
unfoldable pub decode_print_ctx_leader : Bytes → ℕ → Outcome (ℕ × ℕ × ℕ)
decode_print_ctx_leader mem ptr = do
  res ← access (load ptr ack_size mem)
  if decode_le res == 0 then exited 128 else do
    output ← access (load (ptr + ack_size) 4 mem)
    cmt ← access (load (ptr + (ack_size + out_size)) 4 mem)
    sender ← access (load (ptr + (ack_size + out_size + 4)) 4 mem)
    org_cmd ← access (load (ptr + (ack_size + out_size + 4 + hash_size)) cmd_size mem)
    if same_bytes org_cmd (zeros cmd_size)
        then ok (decode_le cmt, decode_le output, decode_le sender)
        else exited 128

module _ (openssl : Bytes → Bytes → Bytes) (platform : Platform) where
  unfoldable pub validate_log_entry : ℕ → TrustedLog → Outcome Bool
  unfolding get_entry_at
  validate_log_entry cur_idx tlog = if cur_idx == 0 then ok true else (do
    prev_entry ← access (serialize_entry log_entry (zeros slot_size) (cur_idx - 1) tlog)
    let (c_digest, len) = get_attestation openssl platform prev_entry
    calculated ← access (load 0 len c_digest)
    cur_digest ← access (load (get_entry_at log_entry cur_idx + (4 + log_entry)) len tlog.mem_log)
    ok (same_bytes calculated cur_digest))

  -- The entry's digest covers the entry at the tail of the log.
  unfoldable pub log : Bytes → Bytes → LogEntry → Metadata → Outcome (Bool × Metadata)
  unfolding get_log_size
  log context_data authenticator uninit meta = do
    tail_serialized ← access (serialize_tail log_entry (zeros slot_size) meta.tlog)
    let (code, len) = get_attestation openssl platform tail_serialized
    digest ← access (load 0 len code)
    c_digest ← access (store 0 digest uninit.c_digest)
    auth ← access (store 0 authenticator uninit.authenticator)
    if ltb log_entry (length context_data) then exited 128 else do
      context ← access (store 0 context_data uninit.context)
      (done, tlog) ← access (
          append log_entry
            (record {
              sequencer = get_log_size meta.tlog;
              context = context;
              c_digest = c_digest;
              authenticator = auth;
            })
            meta.tlog)
      ok (done, record meta { tlog = tlog })

  -- One round of the audit. What `validate_log_entry` answers is not looked at.
  unfoldable pub audit_entry : ℕ → Metadata → Outcome Metadata
  audit_entry i meta = do
    valid ← validate_log_entry i meta.tlog
    ctx_ptr ← access (print_entry_at log_entry i meta.tlog)
    (cmt_val, output_val, sender_val) ← decode_print_ctx_leader meta.tlog.mem_log ctx_ptr
    let witness_meta = add_log_seq sender_val batch_count meta.witness_meta
    if cmt_val == output_val && cmt_val == last_log_seq sender_val witness_meta
        then ok
            (record meta { witness_meta = witness_meta; last_state_cmt = meta.last_state_cmt + 1 })
        else exited 128

  -- `left` more rounds, from entry `i` on.
  unfoldable pub audit_from : ℕ → ℕ → Metadata → Outcome Metadata
  audit_from zero i meta = ok meta
  audit_from (suc left) i meta = do meta' ← audit_entry i meta; audit_from left (suc i) meta'

  -- `log_audit`, in a build with or without `LOG_AUDIT`.
  unfoldable pub log_audit : Bool → Metadata → Outcome Metadata
  unfolding get_log_size
  log_audit enabled meta =
      if enabled
      then audit_from (get_log_size meta.tlog - meta.last_state_cmt) meta.last_state_cmt meta
      else ok meta
