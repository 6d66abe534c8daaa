-- ===== src/Tlog/Exchange.antt =====
-- trusted-log/main.cc: what the leader's audit makes of the response of a follower.
use replication_protos.Prelude.{
  some_injective, ℕ, suc, ◌+◌, ◌%◌, ◌<◌, ◌≡◌, ◌≢◌, ◌↔◌, refl, ap, sym, ◌∙◌, true, some, List, [],
  ◌∷◌, ◌++◌, append_assoc, arith, Bytes, zeros, load, load_prefix, load-concat, load-skip,
  load-append_le, load_eq, load_inside, take, drop-drop, same_bytes_refl, length, length-drop,
  concat, drop, encode_le, decode_le, length-encode_le, decode-encode_u32, u32_mod,
}
use replication_protos.Outcome.{ok}
use replication_protos.Attest.{Platform, hmac_size, hmac_key}
use replication_protos.Tlog.Format.{AckMsg, ack_fields, out_size, ack_msg_size}
use replication_protos.Tlog.Roundtrip.{
  length-ack_fields, load-ack_cmt, load-ack_sender, load-ack_ack,
}
use replication_protos.Tlog.Log.{LogEntry, TrustedLog}
use replication_protos.Tlog.Metadata.{
  Metadata, log_entry, last_log_seq, add_log_seq, batch_count, log_audit,
}
use replication_protos.Tlog.Chain.{IsLog, logged_entry}
use replication_protos.Tlog.Audit.{Says}
use replication_protos.Tlog.Layout.{Fits, Holds}
use replication_protos.Tlog.Accepts.{log_audit-Audited}
use replication_protos.Tlog.Node.{AppContext, Uninit, emit_unless, cont_func_prp}
use replication_protos.Tlog.Reply.{
  reply_text, sent_ack, length-sent_output, length-reply_text, IsUninit, packet,
  cont_func_prp-IsLog,
}

one_ne : decode_le (1 ∷ []) ≢ 0
unfolding decode_le
one_ne = ground arith

module _ (cmt node : ℕ) (uninit : AckMsg) (stale more : Bytes)
    (output_fits : length uninit.output ≡ out_size) (stale_size : length stale ≡ ack_msg_size) where
  abbrev pub body : Bytes
  body = reply_text (sent_ack cmt node uninit) stale ++ more

  fields_size : length (concat (ack_fields (sent_ack cmt node uninit))) ≡ 25
  fields_size =
      length-ack_fields (sent_ack cmt node uninit) refl
        (length-sent_output cmt node uninit output_fits)

  regroup : body ≡ concat (ack_fields (sent_ack cmt node uninit)) ++ (drop 25 stale ++ more)
  regroup = append_assoc (concat (ack_fields (sent_ack cmt node uninit))) (drop 25 stale) more

  at_cmd : load 53 16 body ≡ load 53 16 stale
  at_cmd =
      ap (load 53 16) regroup
      ∙ load-skip 25 28 16 (concat (ack_fields (sent_ack cmt node uninit))) (drop 25 stale ++ more)
          (sym fields_size)
      ∙ load-append_le 28 16 (drop 25 stale) more
          (omega (arith, stale_size, length-drop {0} 25 stale))
      ∙ load_eq 28 16 (drop 25 stale) (omega (arith, stale_size, length-drop {0} 25 stale))
      ∙ ap (λ b. some (take 16 b)) (drop-drop 25 28 stale)
      ∙ sym (load_eq 53 16 stale (omega (arith, stale_size)))

  at_whole_output : load 1 16 body ≡ some (sent_ack cmt node uninit).output
  at_whole_output =
      ap (load 1 16) regroup
      ∙ load-concat ((1 ∷ []) ∷ []) (sent_ack cmt node uninit).output
          (encode_le 4 cmt ∷ encode_le 4 node ∷ []) 1 16 (drop 25 stale ++ more) refl
          (sym (length-sent_output cmt node uninit output_fits))

  at_output : load 1 4 body ≡ some (encode_le 4 cmt)
  at_output =
      load_inside 1 16 0 4 body at_whole_output (omega arith)
      ∙ load_prefix 4 (encode_le 4 cmt) (drop 4 uninit.output) (sym (length-encode_le 4 cmt))

  -- What the leader logs of a response is an acknowledgement that its audit can accept just when 16
  -- bytes that the follower has not written are zero.
  pub Says-reply_text :
      (seq sender : ℕ)
      → cmt < u32_mod
      → node < u32_mod
      → Says body seq sender
        ↔ ((load 53 16 stale ≡ some (zeros 16)) × (seq ≡ cmt) × (sender ≡ node))
  Says-reply_text seq sender small small' = (
    (λ s. (
      sym at_cmd ∙ s.at_cmd,
      sym s.same_cmt
          ∙ ap decode_le (some_injective (sym s.at_cmt ∙ at_num))
          ∙ decode-encode_u32 cmt
          ∙ fit cmt small,
      sym s.same_from
          ∙ ap decode_le (some_injective (sym s.at_from ∙ at_node))
          ∙ decode-encode_u32 node
          ∙ fit node small',
    )),
    (λ (z, n, f). record {
      flag = 1 ∷ [];
      output = encode_le 4 cmt;
      cmt = encode_le 4 cmt;
      from = encode_le 4 node;
      at_flag =
          ap (load 0 1) regroup
          ∙ load-ack_ack (sent_ack cmt node uninit) refl sized (drop 25 stale ++ more);
      at_output = at_output;
      at_cmt = at_num;
      at_from = at_node;
      at_cmd = at_cmd ∙ z;
      positive = one_ne;
      same_output = decode-encode_u32 cmt ∙ fit cmt small ∙ sym n;
      same_cmt = decode-encode_u32 cmt ∙ fit cmt small ∙ sym n;
      same_from = decode-encode_u32 node ∙ fit node small' ∙ sym f;
    }),
  )
    where
      fit : (n : ℕ) → n < u32_mod → n % u32_mod ≡ n
      fit n h = omega (arith, h)

      sized : length (sent_ack cmt node uninit).output ≡ out_size
      sized = length-sent_output cmt node uninit output_fits

      at_num : load 17 4 body ≡ some (encode_le 4 cmt)
      at_num =
          ap (load 17 4) regroup
          ∙ load-ack_cmt (sent_ack cmt node uninit) refl sized (drop 25 stale ++ more)

      at_node : load 21 4 body ≡ some (encode_le 4 node)
      at_node =
          ap (load 21 4) regroup
          ∙ load-ack_sender (sent_ack cmt node uninit) refl sized (drop 25 stale ++ more)

module _ (openssl : Bytes → Bytes → Bytes)
    (code_size : (k m : Bytes) → length (openssl k m) ≡ hmac_size) (platform : Platform) where
  -- The audit of a log whose last entry is the only one that is new.
  audit_last :
      (meta : Metadata) (es : List LogEntry) (e : LogEntry) (free : ℕ)
      → Holds log_entry meta.tlog (es ++ (e ∷ [])) free
      → meta.last_state_cmt ≡ length es
      → ((m : Metadata) × (log_audit openssl platform true meta ≡ ok m)) ↔ (
          (sender : ℕ) × Says e.context
            (last_log_seq sender (add_log_seq sender batch_count meta.witness_meta))
            sender)
  audit_last meta es e free h from = (
    (λ (m, run).
        let (w, (sender, says, _), _) =
          (log_audit-Audited openssl code_size platform meta m es (e ∷ []) free h from).0 run in
        (sender, says)),
    (λ (sender, says). (
      _,
      (log_audit-Audited openssl code_size platform meta _ es (e ∷ []) free h from).1
          (add_log_seq sender batch_count meta.witness_meta, (sender, says, refl), refl),
    )),
  )

  -- The leader of trusted-log/main.cc, whose audit has covered its whole log, accepts and logs the
  -- signed response of a follower that says it has applied cmt requests. The audit that follows
  -- then returns just when cmt is one more than the follower's last audited number, and the 16
  -- bytes at offset 53 of the response, which the follower never writes, happened to be zero in its
  -- buffer. The log is well formed with room for an entry, the HMAC has 32 bytes, and cmt and the
  -- follower's id are below 2^32.
  pub log_audit-cont_func_prp :
      (cmt : ℕ) (uninit : Uninit) (stale : Bytes) (node : ℕ) (entry : LogEntry) (ctx : AppContext)
      (es : List LogEntry) (free : ℕ)
      → cmt < u32_mod
      → node < u32_mod
      → IsUninit uninit stale
      → Fits log_entry entry
      → IsLog openssl ctx.metadata.tlog es (suc free)
      → ctx.metadata.last_state_cmt ≡ length es
      → (tlog : TrustedLog) × (cont_func_prp openssl platform
            (packet openssl code_size platform (reply_text (sent_ack cmt node uninit.ack) stale))
            entry
            ctx
          ≡ ok (record ctx {
            metadata = record ctx.metadata { tlog = tlog };
            count_replies = (ctx.count_replies + 1) % u32_mod;
          }))
        × (((m : Metadata) × (log_audit openssl platform true (record ctx.metadata { tlog = tlog })
                ≡ ok m))
            ↔ ((load 53 16 stale ≡ some (zeros 16))
                × (last_log_seq node (add_log_seq node batch_count ctx.metadata.witness_meta)
                    ≡ cmt)))
  unfolding emit_unless
  log_audit-cont_func_prp cmt uninit stale node entry ctx es free c n u f v from =
      let text : Bytes = reply_text (sent_ack cmt node uninit.ack) stale in
      let (tlog, done, after) =
        cont_func_prp-IsLog openssl code_size platform text (openssl hmac_key text) entry ctx es
          free
          (omega (arith, length-reply_text cmt node uninit.ack stale u.output_fits u.stale_size))
          (code_size hmac_key text) f v in
      let (there, back) =
        audit_last (record ctx.metadata { tlog = tlog }) es
          (logged_entry openssl code_size platform text (openssl hmac_key text) entry es) free
          after.holds from in
      (
        tlog,
        done ∙ rw (same_bytes_refl (openssl hmac_key text)),
        (
          (λ run.
              let (sender, says) = there run in
              let (zero_cmd, counted, from_node) =
                (Says-reply_text cmt node uninit.ack stale _ u.output_fits u.stale_size _ sender c
                    n).0
                  says in
              (
                zero_cmd,
                ap (λ k. last_log_seq k (add_log_seq k batch_count ctx.metadata.witness_meta))
                      (sym from_node)
                    ∙ counted,
              )),
          (λ (zero_cmd, counted). back (
            node,
            (Says-reply_text cmt node uninit.ack stale _ u.output_fits u.stale_size _ node c n).1
                (zero_cmd, counted, refl),
          )),
        ),
      )
