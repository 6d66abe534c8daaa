-- ===== src/Tlog/Accepts.antt =====
-- trusted-log/main.cc: `log_audit` accepts exactly the logs that `Audited` describes.
use replication_protos.Prelude.{
  ==_sound, ==_refl, ℕ, suc, ◌+◌, ◌-◌, ◌*◌, ◌≡◌, ◌↔◌, inl, inr, refl, ap, ap₂, sym, subst, ◌∙◌,
  Bool, Bool-cases, true, ◌&&◌, some, List, [], ◌∷◌, ◌++◌, append_assoc, arith, ◌==◌, if◌then◌else◌,
  Bytes, load, load_inside, load_prefix, encode_le, length-encode_le, length, length-append,
}
use replication_protos.Outcome.{ok_injective, ok, exited, ◌>>=◌, >>=-eq-ok}
use replication_protos.Attest.{Platform, hmac_size}
use replication_protos.Tlog.Log.{LogEntry, TrustedLog, get_entry_at, print_entry_at, get_log_size}
use replication_protos.Tlog.Layout.{Holds, load_slot}
use replication_protos.Tlog.Metadata.{
  Metadata, log_entry, slot_size, batch_count, last_log_seq, add_log_seq, decode_print_ctx_leader,
  audit_entry, audit_from, log_audit, validate_log_entry,
}
use replication_protos.Tlog.Chain.{aligned, validate_log_entry_lem}
use replication_protos.Tlog.Audit.{
  Says, Audited, load_context, decode_print_ctx_leader-Says, Says-decode_print_ctx_leader,
}

-- A list that is not empty has a last element.
last_split :
    (x : LogEntry) (xs : List LogEntry)
    → (pre : List LogEntry) × (l : LogEntry) × (x ∷ xs ≡ pre ++ (l ∷ []))
last_split x [] = ([], x, refl)
last_split x (y ∷ ys) = let (pre, l, e) = last_split y ys in (x ∷ pre, l, ap (◌∷◌ x) e)

both_hold : (p q : Bool) → p && q ≡ true → (p ≡ true) × (q ≡ true)
both_hold p q e = ground arith

refused_ok : (m : Metadata) → exited 128 ≡ ok m → ⊥
refused_ok m e = cc

plus_none : (n : ℕ) → n ≡ n + 0
plus_none n = omega arith

-- The state behind one round.
abbrev audited : ℕ → Metadata → Metadata
audited sender meta = record meta {
  witness_meta = add_log_seq sender batch_count meta.witness_meta;
  last_state_cmt = meta.last_state_cmt + 1;
}

abbrev pub audited_to : List (ℕ × ℕ) → ℕ → Metadata → Metadata
audited_to w n meta = record meta { witness_meta = w; last_state_cmt = n }

one_more : (es : List LogEntry) (e : LogEntry) → suc (length es) ≡ length (es ++ (e ∷ []))
one_more es e = omega (arith, length-append {0} es (e ∷ []))

module _ (openssl : Bytes → Bytes → Bytes)
    (code_size : (k m : Bytes) → length (openssl k m) ≡ hmac_size) (platform : Platform) where
  validate_total :
      (tlog : TrustedLog) (es : List LogEntry) (e : LogEntry) (fs : List LogEntry) (free : ℕ)
      → Holds log_entry tlog (es ++ (e ∷ fs)) free
      → (v : Bool) × (validate_log_entry openssl platform (length es) tlog ≡ ok v)
  unfolding validate_log_entry
  validate_total tlog [] e fs free h = (true, refl)
  validate_total tlog (x ∷ xs) e fs free h =
      let (pre, l, split) = last_split x xs in
      (
        _,
        ap (λ i. validate_log_entry openssl platform i tlog) (count pre l split)
            ∙ validate_log_entry_lem openssl code_size platform tlog pre l e fs free (
                subst (λ k. Holds log_entry tlog k free)
                  (ap (λ k. k ++ (e ∷ fs)) split ∙ append_assoc pre (l ∷ []) (e ∷ fs)) h),
      )
    where
      count :
          (pre : List LogEntry) (l : LogEntry)
          → x ∷ xs ≡ pre ++ (l ∷ [])
          → length (x ∷ xs) ≡ suc (length pre)
      count pre l split = ap length split ∙ omega (arith, length-append {0} pre (l ∷ []))

  -- The number of the entry, which is read and not used.
  read_number :
      (tlog : TrustedLog) (es : List LogEntry) (e : LogEntry) (fs : List LogEntry) (free : ℕ)
      → Holds log_entry tlog (es ++ (e ∷ fs)) free
      → (n : Bytes) × (load (length es * slot_size) 4 tlog.mem_log ≡ some n)
  read_number tlog es e fs free h = (
    _,
    ap (λ p. load p 4 tlog.mem_log) plus_zero
        ∙ load_inside (length es * slot_size) slot_size 0 4 tlog.mem_log
            (load_slot log_entry aligned tlog es e fs free h) (omega arith)
        ∙ load_prefix 4 (encode_le 4 e.sequencer) _ (sym (length-encode_le 4 e.sequencer)),
  )
    where
      plus_zero : length es * slot_size ≡ length es * slot_size + 0
      plus_zero = omega arith

  audit_entry_lem :
      (meta : Metadata) (es : List LogEntry) (e : LogEntry) (fs : List LogEntry) (free : ℕ)
      → Holds log_entry meta.tlog (es ++ (e ∷ fs)) free
      → audit_entry openssl platform (length es) meta ≡ (
          decode_print_ctx_leader meta.tlog.mem_log (length es * slot_size + 4) >>= λ r.
          if r.0 == r.1 && r.0 == last_log_seq r.2 (add_log_seq r.2 batch_count meta.witness_meta)
          then ok (audited r.2 meta)
          else exited 128)
  unfolding audit_entry print_entry_at get_entry_at
  audit_entry_lem meta es e fs free h =
      rw ((validate_total meta.tlog es e fs free h).1, (read_number meta.tlog es e fs free h).1)

  audit_entry-Says :
      (meta : Metadata) (es : List LogEntry) (e : LogEntry) (fs : List LogEntry) (free sender : ℕ)
      → Holds log_entry meta.tlog (es ++ (e ∷ fs)) free
      → Says e.context
          (last_log_seq sender (add_log_seq sender batch_count meta.witness_meta))
          sender
      → audit_entry openssl platform (length es) meta ≡ ok (audited sender meta)
  audit_entry-Says meta es e fs free sender h s =
      audit_entry_lem meta es e fs free h
      ∙ rw (
        decode_print_ctx_leader-Says meta.tlog.mem_log e.context (length es * slot_size + 4)
            (load_context meta.tlog es e fs free h) _ sender s,
        ==_refl (last_log_seq sender (add_log_seq sender batch_count meta.witness_meta)),
      )

  Says-audit_entry :
      (meta meta' : Metadata) (es : List LogEntry) (e : LogEntry) (fs : List LogEntry) (free : ℕ)
      → Holds log_entry meta.tlog (es ++ (e ∷ fs)) free
      → audit_entry openssl platform (length es) meta ≡ ok meta'
      → (sender : ℕ) × Says e.context
          (last_log_seq sender (add_log_seq sender batch_count meta.witness_meta))
          sender
        × (audited sender meta ≡ meta')
  Says-audit_entry meta meta' es e fs free h run =
      let ((cmt, output, sender), read, rest) =
        >>=-eq-ok (decode_print_ctx_leader meta.tlog.mem_log (length es * slot_size + 4)) _
          (sym (audit_entry_lem meta es e fs free h) ∙ run) in
      elim (Bool-cases (cmt == output && cmt == last_log_seq sender (next sender))) [
        | inr f ↦ absurd (refused_ok meta' (rw f at rest))
        | inl t ↦
            let (same, counted) = both_hold (cmt == output) _ t in
            (
              sender,
              subst (λ n. Says e.context n sender)
                  (==_sound cmt (last_log_seq sender (next sender)) counted)
                  (Says-decode_print_ctx_leader meta.tlog.mem_log e.context
                    (length es * slot_size + 4) (load_context meta.tlog es e fs free h) cmt output
                    sender read (==_sound cmt output same)),
              ok_injective (rw t at rest),
            )
      ]
    where
      next : ℕ → List (ℕ × ℕ)
      next sender = add_log_seq sender batch_count meta.witness_meta

  -- The entries of `fs`, which follow `es`.
  audit_from-Audited :
      (meta : Metadata) (es fs : List LogEntry) (free : ℕ) (w : List (ℕ × ℕ))
      → Holds log_entry meta.tlog (es ++ fs) free
      → Audited meta.witness_meta fs w
      → audit_from openssl platform (length fs) (length es) meta
        ≡ ok (audited_to w (meta.last_state_cmt + length fs) meta)
  unfolding audit_from
  audit_from-Audited meta es [] free w h a =
      ap₂ (λ v n. ok (audited_to v n meta)) a (plus_none meta.last_state_cmt)
  audit_from-Audited meta es (e ∷ fs) free w h (sender, says, more) =
      ap (λ r. r >>= λ m. audit_from openssl platform (length fs) (suc (length es)) m)
        (audit_entry-Says meta es e fs free sender h says)
      ∙ ap (λ i. audit_from openssl platform (length fs) i (audited sender meta)) (one_more es e)
      ∙ audit_from-Audited (audited sender meta) (es ++ (e ∷ [])) fs free w
          (subst (λ l. Holds log_entry meta.tlog l free) (sym (append_assoc es (e ∷ []) fs)) h) more
      ∙ ap (λ n. ok (audited_to w n meta)) (omega arith)

  Audited-audit_from :
      (meta meta' : Metadata) (es fs : List LogEntry) (free : ℕ)
      → Holds log_entry meta.tlog (es ++ fs) free
      → audit_from openssl platform (length fs) (length es) meta ≡ ok meta'
      → (w : List (ℕ × ℕ)) × Audited meta.witness_meta fs w
        × (meta' ≡ audited_to w (meta.last_state_cmt + length fs) meta)
  unfolding audit_from
  Audited-audit_from meta meta' es [] free h run = (
    meta.witness_meta,
    refl,
    ok_injective (sym run)
        ∙ ap (λ n. audited_to meta.witness_meta n meta) (plus_none meta.last_state_cmt),
  )
  Audited-audit_from meta meta' es (e ∷ fs) free h run =
      let (mid, step, rest) = >>=-eq-ok (audit_entry openssl platform (length es) meta) _ run in
      let (sender, says, at) = Says-audit_entry meta mid es e fs free h step in
      let (w, more, done) =
        Audited-audit_from (audited sender meta) meta' (es ++ (e ∷ [])) fs free
          (subst (λ l. Holds log_entry meta.tlog l free) (sym (append_assoc es (e ∷ []) fs)) h)
          (ap₂ (λ i m. audit_from openssl platform (length fs) i m) (sym (one_more es e)) at
            ∙ rest) in
      (w, (sender, says, more), done ∙ ap (λ n. audited_to w n meta) (omega arith))

  -- On a log that holds the entries es, audited before, and fs, log_audit returns just when the
  -- entries of fs are positive acknowledgements that name the default command and whose index and
  -- output count up by one for each sender; it then leaves the numbers that this counting ends
  -- with, and the length of the log as the number of audited entries, and changes nothing else. For
  -- an HMAC of 32 bytes.
  pub log_audit-Audited :
      (meta meta' : Metadata) (es fs : List LogEntry) (free : ℕ)
      → Holds log_entry meta.tlog (es ++ fs) free
      → meta.last_state_cmt ≡ length es
      → (log_audit openssl platform true meta ≡ ok meta') ↔ (
          (w : List (ℕ × ℕ)) × Audited meta.witness_meta fs w
          × (meta' ≡ audited_to w (length (es ++ fs)) meta))
  unfolding log_audit get_log_size
  log_audit-Audited meta meta' es fs free h from = (
    (λ run.
        let (w, a, e) = Audited-audit_from meta meta' es fs free h (sym run_eq ∙ run) in
        (w, a, e ∙ ap (λ n. audited_to w n meta) all)),
    (λ (w, a, e).
        run_eq
        ∙ audit_from-Audited meta es fs free w h a
        ∙ ap ok (ap (λ n. audited_to w n meta) all ∙ sym e)),
  )
    where
      left : meta.tlog.cur_idx - meta.last_state_cmt ≡ length fs
      left = omega (arith, h.count, from, length-append {0} es fs)

      all : meta.last_state_cmt + length fs ≡ length (es ++ fs)
      all = omega (arith, from, length-append {0} es fs)

      run_eq :
          log_audit openssl platform true meta
          ≡ audit_from openssl platform (length fs) (length es) meta
      run_eq = ap₂ (λ n i. audit_from openssl platform n i meta) left from
