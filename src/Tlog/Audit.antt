-- ===== src/Tlog/Audit.antt =====
-- What `log_audit` (trusted-log/main.cc) accepts.
use replication_protos.Prelude.{
  ==_ne, ==_differ, ℕ, ◌+◌, ◌*◌, ◌≤◌, ◌≡◌, ◌≢◌, inl, inr, ap, sym, ◌∙◌, Bool, Bool-cases, true,
  some, List, [], ◌∷◌, ◌++◌, append-nil, arith, ◌==◌, if◌then◌else◌, Bytes, zeros, load,
  load_inside, load-concat, same_bytes, same_bytes_refl, same_bytes_sound, length, length-concat,
  length-encode_le, encode_le, decode_le, All-split,
}
use replication_protos.Outcome.{Outcome, ok, exited, access, access-eq-ok, >>=-eq-ok}
use replication_protos.Tlog.Log.{LogEntry, TrustedLog}
use replication_protos.Tlog.Layout.{Fits, Holds, entry_bytes, load_slot}
use replication_protos.Tlog.Metadata.{
  log_entry, slot_size, batch_count, last_log_seq, add_log_seq, decode_print_ctx_leader,
}
use replication_protos.Tlog.Chain.{aligned}

-- A recorded acknowledgement: it is positive, comes from `sender`, carries `seq` both as its index and
-- as its output, and names the default command.
pub record Says (context : Bytes) (seq sender : ℕ) : Type 0 where
  pub flag : Bytes
  pub output : Bytes
  pub cmt : Bytes
  pub from : Bytes
  pub at_flag : load 0 1 context ≡ some flag
  pub at_output : load 1 4 context ≡ some output
  pub at_cmt : load 17 4 context ≡ some cmt
  pub at_from : load 21 4 context ≡ some from
  pub at_cmd : load 53 16 context ≡ some (zeros 16)
  pub positive : decode_le flag ≢ 0
  pub same_output : decode_le output ≡ seq
  pub same_cmt : decode_le cmt ≡ seq
  pub same_from : decode_le from ≡ sender

-- The entries are acknowledgements whose indexes count up by one for each sender, from what `w` has.
abbrev pub Audited : List (ℕ × ℕ) → List LogEntry → List (ℕ × ℕ) → Type 0
Audited w [] w' = w ≡ w'
Audited w (e ∷ es) w' =
    (sender : ℕ) × Says e.context (last_log_seq sender (add_log_seq sender batch_count w)) sender
    × Audited (add_log_seq sender batch_count w) es w'

-- The context of an entry.
pub load_context :
    (tlog : TrustedLog) (es : List LogEntry) (e : LogEntry) (fs : List LogEntry) (free : ℕ)
    → Holds log_entry tlog (es ++ (e ∷ fs)) free
    → load (length es * slot_size + 4) log_entry tlog.mem_log ≡ some e.context
load_context tlog es e fs free h =
    let (_, ((c, _, _, _), _)) = All-split (Fits log_entry) es (e ∷ fs) h.fits in
    load_inside (length es * slot_size) slot_size 4 log_entry tlog.mem_log
      (load_slot log_entry aligned tlog es e fs free h) (omega arith)
    ∙ ap (load 4 log_entry) (sym (append-nil (entry_bytes e)))
    ∙ load-concat (encode_le 4 e.sequencer ∷ []) e.context (e.c_digest ∷ e.authenticator ∷ []) 4
        log_entry []
        (omega
          (arith, length-encode_le 4 e.sequencer, length-concat (encode_le 4 e.sequencer ∷ [])))
        (sym c)

-- The two refusals.
not_refused : (r : ℕ × ℕ × ℕ) → exited 128 ≡ ok r → ⊥
not_refused r e = cc

last_test :
    (t : Bool) (r s : ℕ × ℕ × ℕ)
    → if◌then◌else◌ {A = Outcome (ℕ × ℕ × ℕ)} t (ok r) (exited 128) ≡ ok s
    → (t ≡ true) × (r ≡ s)
last_test t r s e = ground arith

-- Reading a recorded acknowledgement, wherever it lies.
module _ (mem context : Bytes) (ptr : ℕ) (there : load ptr log_entry mem ≡ some context) where
  at : (off n : ℕ) → off + n ≤ log_entry → load (ptr + off) n mem ≡ load off n context
  at off n small = load_inside ptr log_entry off n mem there small

  at_start : load ptr 1 mem ≡ load 0 1 context
  at_start = ap (λ p. load p 1 mem) plus_zero ∙ at 0 1 (omega arith)
    where
      plus_zero : ptr ≡ ptr + 0
      plus_zero = omega arith

  pub decode_print_ctx_leader-Says :
      (seq sender : ℕ)
      → Says context seq sender
      → decode_print_ctx_leader mem ptr ≡ ok (seq, seq, sender)
  unfolding decode_print_ctx_leader
  decode_print_ctx_leader-Says seq sender s = rw (
    at_start ∙ s.at_flag,
    ==_ne (decode_le s.flag) 0 s.positive,
    at 1 4 (omega arith) ∙ s.at_output,
    at 17 4 (omega arith) ∙ s.at_cmt,
    at 21 4 (omega arith) ∙ s.at_from,
    at 53 16 (omega arith) ∙ s.at_cmd,
    same_bytes_refl (zeros 16),
    s.same_cmt,
    s.same_output,
    s.same_from,
  )

  pub Says-decode_print_ctx_leader :
      (cmt output sender : ℕ)
      → decode_print_ctx_leader mem ptr ≡ ok (cmt, output, sender)
      → cmt ≡ output
      → Says context cmt sender
  unfolding decode_print_ctx_leader
  Says-decode_print_ctx_leader cmt output sender e same =
      let (flag, a0, r0) = >>=-eq-ok (access (load ptr 1 mem)) _ e in
      elim (Bool-cases (decode_le flag == 0)) [
        | inl t ↦ absurd (not_refused (cmt, output, sender) (rw t at r0))
        | inr f ↦
            let (out, a1, r1) = >>=-eq-ok (access (load (ptr + 1) 4 mem)) _ (rw f at r0) in
            let (num, a2, r2) = >>=-eq-ok (access (load (ptr + 17) 4 mem)) _ r1 in
            let (from, a3, r3) = >>=-eq-ok (access (load (ptr + 21) 4 mem)) _ r2 in
            let (cmd, a4, r4) = >>=-eq-ok (access (load (ptr + 53) 16 mem)) _ r3 in
            let (default, found) =
              last_test (same_bytes cmd (zeros 16)) (decode_le num, decode_le out, decode_le from)
                (cmt, output, sender) r4 in
            record {
              flag = flag;
              output = out;
              cmt = num;
              from = from;
              at_flag = sym at_start ∙ access-eq-ok _ a0;
              at_output = sym (at 1 4 (omega arith)) ∙ access-eq-ok _ a1;
              at_cmt = sym (at 17 4 (omega arith)) ∙ access-eq-ok _ a2;
              at_from = sym (at 21 4 (omega arith)) ∙ access-eq-ok _ a3;
              at_cmd =
                  sym (at 53 16 (omega arith))
                  ∙ access-eq-ok _ a4
                  ∙ ap some (same_bytes_sound cmd (zeros 16) default);
              positive = ==_differ (decode_le flag) 0 f;
              same_output = ap (λ r. r.1) found ∙ sym same;
              same_cmt = ap (λ r. r.0) found;
              same_from = ap (λ r. r.2) found;
            }
      ]
