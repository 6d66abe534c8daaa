-- ===== src/Tlog/Tests.antt =====
-- trusted-log/ at concrete inputs, with the stand-in for the HMAC of the tests of crypto/.
use replication_protos.Prelude.{
  ℕ, ◌+◌, ◌%◌, ◌<◌, ◌≡◌, ◌↔◌, refl, true, some, List, [], ◌∷◌, ◌++◌, arith, Bytes, zeros, load,
  encode_le, length-encode_le, same_bytes, u32_mod, u64_mod,
}
use replication_protos.Outcome.{ok}
use replication_protos.Attest.{native, hmac_key}
use replication_protos.Attest.Tests.{sum_code, sum_code_size}
use replication_protos.Rpc.{reply}
use replication_protos.A2m.Layout.{length-zeros}
use replication_protos.Tlog.Log.{LogEntry, TrustedLog}
use replication_protos.Tlog.Layout.{Fits}
use replication_protos.Tlog.Metadata.{
  Metadata, log_entry, batch_count, last_log_seq, add_log_seq, log, log_audit, validate_log_entry,
}
use replication_protos.Tlog.Chain.{IsLog, init-IsLog, logged_entry, log-IsLog}
use replication_protos.Tlog.Tamper.{Linked, validate_log_entry-Linked}
use replication_protos.Tlog.Audit.{Audited}
use replication_protos.Tlog.Accepts.{audited_to, log_audit-Audited}
use replication_protos.Tlog.Node.{
  AppContext, Uninit, bad_mac, emit, emit_unless, cont_func_prp, req_handler_prp,
}
use replication_protos.Tlog.Reply.{
  IsUninit, reply_text, length-reply_text, sent_ack, packet, req_handler_prp-IsLog,
}
use replication_protos.Tlog.Exchange.{log_audit-cont_func_prp}
use replication_protos.Tlog.Run.{new_metadata, new_context}

abbrev zero_entry : LogEntry
zero_entry = record {
  sequencer = 0;
  context = zeros 208;
  c_digest = zeros 32;
  authenticator = zeros 32;
}

zero_entry-Fits : Fits log_entry zero_entry
zero_entry-Fits = (length-zeros 208, length-zeros 32, length-zeros 32, omega arith)

-- The metadata of a run of one request, whose log has room for three entries.
abbrev meta : Metadata
meta = new_metadata 1

starts : IsLog sum_code meta.tlog [] 3
unfolding new_metadata
starts = init-IsLog sum_code 832 2 (omega arith)

abbrev action : Bytes
action = 7 ∷ 8 ∷ []

log-IsLog_example :
    (tlog : TrustedLog) × (log sum_code native action (zeros 32) zero_entry meta
      ≡ ok (true, record meta { tlog = tlog }))
    × IsLog sum_code tlog
        (logged_entry sum_code sum_code_size native action (zeros 32) zero_entry [] ∷ [])
        2
log-IsLog_example =
    log-IsLog sum_code sum_code_size native action (zeros 32) zero_entry meta [] 2 starts
      zero_entry-Fits (omega arith) (length-zeros 32)

abbrev first_entry : LogEntry
first_entry = logged_entry sum_code sum_code_size native action (zeros 32) zero_entry []

-- The log with one entry.
action_logged :
    (tlog : TrustedLog) × (log sum_code native action (zeros 32) zero_entry meta
      ≡ ok (true, record meta { tlog = tlog }))
    × IsLog sum_code tlog (first_entry ∷ []) 2
action_logged =
    log-IsLog sum_code sum_code_size native action (zeros 32) zero_entry meta [] 2 starts
      zero_entry-Fits (omega arith) (length-zeros 32)

abbrev one_tlog : TrustedLog
one_tlog = action_logged.0

one_IsLog : IsLog sum_code one_tlog (first_entry ∷ []) 2
one_IsLog = action_logged.2

abbrev action2 : Bytes
action2 = 9 ∷ []

abbrev second_entry : LogEntry
second_entry =
    logged_entry sum_code sum_code_size native action2 (zeros 32) zero_entry (first_entry ∷ [])

-- The log with a second entry.
both_logged :
    (tlog : TrustedLog) × (log sum_code native action2
        (zeros 32)
        zero_entry
        (record meta { tlog = one_tlog })
      ≡ ok (true, record meta { tlog = tlog }))
    × IsLog sum_code tlog (first_entry ∷ second_entry ∷ []) 1
both_logged =
    log-IsLog sum_code sum_code_size native action2 (zeros 32) zero_entry
      (record meta { tlog = one_tlog }) (first_entry ∷ []) 1 one_IsLog zero_entry-Fits (omega arith)
      (length-zeros 32)

abbrev two_tlog : TrustedLog
two_tlog = both_logged.0

two_IsLog : IsLog sum_code two_tlog (first_entry ∷ second_entry ∷ []) 1
two_IsLog = both_logged.2

validate_log_entry-Linked_example :
    ((i : ℕ) → i < 2 → validate_log_entry sum_code native i two_tlog ≡ ok true)
    ↔ Linked sum_code (first_entry ∷ second_entry ∷ [])
validate_log_entry-Linked_example =
    validate_log_entry-Linked sum_code sum_code_size native two_tlog 1
      (first_entry ∷ second_entry ∷ []) two_IsLog.holds

-- A follower whose response's buffer is zeroed.
abbrev uninit : Uninit
uninit = record {
  entry = zero_entry;
  ack = record {
    ack = 0 ∷ [];
    output = zeros 16;
    cmt = 0;
    sender = 0;
    state = zeros 32;
    cmd = zeros 16;
  };
  resp = zeros 108;
}

uninit-IsUninit : IsUninit uninit (zeros 76)
uninit-IsUninit = record {
  entry_fits = zero_entry-Fits;
  output_fits = length-zeros 16;
  stale_size = length-zeros 76;
  room = zeros 32;
  room_size = length-zeros 32;
  more = [];
  resp_holds = refl;
}

abbrev node_ctx : ℕ → AppContext
node_ctx id = new_context 1 id 0

node_starts : (id : ℕ) → IsLog sum_code (node_ctx id).metadata.tlog [] 3
unfolding new_context
node_starts id = starts

-- The text is not signed: the code is zero.
abbrev claimed : Bytes
claimed = encode_le 208 5

req_handler_prp-IsLog_example :
    (metadata : Metadata) × (req_handler_prp sum_code native
        (claimed ++ zeros 32)
        uninit
        (node_ctx 1)
      ≡ ok (
          emit
            (reply (
              packet sum_code sum_code_size native (
                reply_text
                  (sent_ack
                    (((node_ctx 1).metadata.cmt_idx + 1) % u32_mod)
                    (node_ctx 1).node_id
                    uninit.ack)
                  (zeros 76))))
            (emit_unless
              (same_bytes (sum_code hmac_key claimed) (zeros 32))
              bad_mac
              (record (node_ctx 1) {
                metadata = metadata;
                prp_count = ((node_ctx 1).prp_count + 1) % u64_mod;
              }))))
    × (metadata.cmt_idx ≡ ((node_ctx 1).metadata.cmt_idx + 1) % u32_mod)
    × IsLog sum_code metadata.tlog
        (logged_entry sum_code sum_code_size native claimed (zeros 32) zero_entry [] ∷ [])
        2
req_handler_prp-IsLog_example =
    req_handler_prp-IsLog sum_code sum_code_size native claimed (zeros 32) (zeros 76) uninit
      (node_ctx 1) [] 2 (length-encode_le 208 5) (length-zeros 32) uninit-IsUninit (node_starts 1)

nothing_audited : (node_ctx 0).metadata.last_state_cmt ≡ 0
unfolding new_context new_metadata
nothing_audited = refl

log_audit-cont_func_prp_example :
    (tlog : TrustedLog) × (cont_func_prp sum_code native
        (packet sum_code sum_code_size native (reply_text (sent_ack 1 2 uninit.ack) (zeros 76)))
        zero_entry
        (node_ctx 0)
      ≡ ok (record (node_ctx 0) {
        metadata = record (node_ctx 0).metadata { tlog = tlog };
        count_replies = ((node_ctx 0).count_replies + 1) % u32_mod;
      }))
    × (((m : Metadata) × (log_audit sum_code native true
              (record (node_ctx 0).metadata { tlog = tlog })
            ≡ ok m))
        ↔ ((load 53 16 (zeros 76) ≡ some (zeros 16))
            × (last_log_seq 2 (add_log_seq 2 batch_count (node_ctx 0).metadata.witness_meta) ≡ 1)))
log_audit-cont_func_prp_example =
    log_audit-cont_func_prp sum_code sum_code_size native 1 uninit (zeros 76) 2 zero_entry
      (node_ctx 0) [] 2 (omega arith) (omega arith) uninit-IsUninit zero_entry-Fits (node_starts 0)
      nothing_audited

-- The leader's log with the response of follower 1.
abbrev answer : Bytes
answer = reply_text (sent_ack 1 1 uninit.ack) (zeros 76)

answer_logged :
    (tlog : TrustedLog) × (log sum_code native answer (zeros 32) zero_entry meta
      ≡ ok (true, record meta { tlog = tlog }))
    × IsLog sum_code tlog
        (logged_entry sum_code sum_code_size native answer (zeros 32) zero_entry [] ∷ [])
        2
answer_logged =
    log-IsLog sum_code sum_code_size native answer (zeros 32) zero_entry meta [] 2 starts
      zero_entry-Fits
      (omega
        (arith, length-reply_text 1 1 uninit.ack (zeros 76) (length-zeros 16) (length-zeros 76)))
      (length-zeros 32)

abbrev answered : Metadata
answered = record meta { tlog = answer_logged.0 }

none_yet : answered.last_state_cmt ≡ 0
unfolding new_metadata
none_yet = refl

log_audit-Audited_example :
    (log_audit sum_code native true answered ≡ ok (audited_to ((1, 1) ∷ (2, 0) ∷ []) 1 answered))
    ↔ ((w : List (ℕ × ℕ)) × Audited answered.witness_meta
          (logged_entry sum_code sum_code_size native answer (zeros 32) zero_entry [] ∷ [])
          w
        × (audited_to ((1, 1) ∷ (2, 0) ∷ []) 1 answered ≡ audited_to w 1 answered))
log_audit-Audited_example =
    log_audit-Audited sum_code sum_code_size native answered
      (audited_to ((1, 1) ∷ (2, 0) ∷ []) 1 answered) []
      (logged_entry sum_code sum_code_size native answer (zeros 32) zero_entry [] ∷ []) 2
      answer_logged.2.holds none_yet
