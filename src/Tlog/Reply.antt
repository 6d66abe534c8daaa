-- ===== src/Tlog/Reply.antt =====
-- trusted-log/main.cc: the handlers of a proposal and of its response, and what is logged between them.
use replication_protos.Prelude.{
  ℕ, suc, ◌+◌, ◌%◌, ◌≤◌, ◌≡◌, refl, ap, sym, subst, ◌∙◌, Bool, true, false, some, List, [], ◌∷◌,
  ◌++◌, append_assoc, arith, ◌==◌, if◌then◌else◌, Bytes, load, load_prefix, same_bytes, length,
  length-append, length-concat, length-drop, concat, drop, drop-append_le, encode_le,
  length-encode_le, u32_mod, u64_mod,
}
use replication_protos.Outcome.{ok}
use replication_protos.Attest.{Platform, hmac_size, hmac_key}
use replication_protos.Attest.Signed.{get_attestation_lem, load_code}
use replication_protos.Rpc.{reply}
use replication_protos.Tlog.Format.{AckMsg, ack_fields, out_size, ack_msg_size, msg_size}
use replication_protos.Tlog.Roundtrip.{memcpy_ack_into_buffer_lem}
use replication_protos.Tlog.Log.{LogEntry, TrustedLog}
use replication_protos.Tlog.Layout.{Fits}
use replication_protos.Tlog.Metadata.{Metadata, log_entry}
use replication_protos.Tlog.Chain.{IsLog, logged_entry}
use replication_protos.Tlog.Node.{
  AppContext, Uninit, bad_mac, emit, emit_unless, ack_of, resize, sign, apply_protocol,
  cont_func_prp, make_reply, req_handler_prp,
}
use replication_protos.Tlog.Packet.{
  sign_lem, text_size_lem, check_mac_lem, log_message-IsLog, apply_all-single,
}

-- The text of a response: the acknowledgement over what its buffer held before.
abbrev pub reply_text : AckMsg → Bytes → Bytes
reply_text ack stale = concat (ack_fields ack) ++ drop 25 stale

-- The acknowledgement of a follower that has applied `cmt` requests.
abbrev pub sent_ack : ℕ → ℕ → AckMsg → AckMsg
sent_ack cmt node uninit = record uninit {
  ack = 1 ∷ [];
  output = encode_le 4 cmt ++ drop 4 uninit.output;
  cmt = cmt;
  sender = node;
}

-- What is uninitialised has the sizes of its types, and the buffer of the response, which holds `stale`
-- where the text of the response will be, has room for a response.
pub record IsUninit (uninit : Uninit) (stale : Bytes) : Type 0 where
  pub entry_fits : Fits log_entry uninit.entry
  pub output_fits : length uninit.ack.output ≡ out_size
  pub stale_size : length stale ≡ ack_msg_size
  pub room : Bytes
  pub room_size : length room ≡ hmac_size
  pub more : Bytes
  pub resp_holds : uninit.resp ≡ stale ++ (room ++ more)

pub length-sent_output :
    (cmt node : ℕ) (uninit : AckMsg)
    → length uninit.output ≡ out_size
    → length (sent_ack cmt node uninit).output ≡ out_size
length-sent_output cmt node uninit e = omega (
  arith,
  e,
  length-append {0} (encode_le 4 cmt) (drop 4 uninit.output),
  length-encode_le 4 cmt,
  length-drop {0} 4 uninit.output,
)

pub length-reply_text :
    (cmt node : ℕ) (uninit : AckMsg) (stale : Bytes)
    → length uninit.output ≡ out_size
    → length stale ≡ ack_msg_size
    → length (reply_text (sent_ack cmt node uninit) stale) ≡ ack_msg_size
length-reply_text cmt node uninit stale e s = omega (
  arith,
  s,
  length-sent_output cmt node uninit e,
  length-append {0} (concat (ack_fields (sent_ack cmt node uninit))) (drop 25 stale),
  length-drop {0} 25 stale,
  length-concat (ack_fields (sent_ack cmt node uninit)),
  length-encode_le 4 cmt,
  length-encode_le 4 node,
)

-- The metadata of a follower after a proposal.
abbrev noted : ℕ → Bytes → Metadata → Metadata
noted node state meta =
    if node == 1
    then record meta { f1_last_state = state }
    else record meta { f2_last_state = state }

noted_keeps :
    (node : ℕ) (state : Bytes) (meta : Metadata)
    → ((noted node state meta).tlog ≡ meta.tlog) × ((noted node state meta).cmt_idx ≡ meta.cmt_idx)
noted_keeps node state meta = by_test (node == 1)
  where
    by_test :
        (t : Bool)
        → ((if t
              then record meta { f1_last_state = state }
              else record meta { f2_last_state = state }).tlog
            ≡ meta.tlog)
          × ((if t
                then record meta { f1_last_state = state }
                else record meta { f2_last_state = state }).cmt_idx
              ≡ meta.cmt_idx)
    by_test true = (refl, refl)
    by_test false = (refl, refl)

module _ (openssl : Bytes → Bytes → Bytes)
    (code_size : (k m : Bytes) → length (openssl k m) ≡ hmac_size) (platform : Platform) where
  abbrev pub packet : Bytes → Bytes
  packet text = text ++ openssl hmac_key text

  load_resp :
      (stale room more : Bytes)
      → length stale ≡ ack_msg_size
      → length room ≡ hmac_size
      → load 0 108 (stale ++ (room ++ more)) ≡ some (stale ++ room)
  load_resp stale room more s r =
      ap (load 0 108) (sym (append_assoc stale room more))
      ∙ load_prefix 108 (stale ++ room) more (omega (arith, s, r, length-append {0} stale room))

  sign_reply :
      (cmt node : ℕ) (uninit : AckMsg) (stale room : Bytes)
      → length uninit.output ≡ out_size
      → length stale ≡ ack_msg_size
      → length room ≡ hmac_size
      → sign openssl platform ack_msg_size
          (concat (ack_fields (sent_ack cmt node uninit)) ++ drop 25 (stale ++ room))
        ≡ ok (packet (reply_text (sent_ack cmt node uninit) stale))
  sign_reply cmt node uninit stale room e s r =
      rw
        (
          drop-append_le 25 stale room (omega (arith, s)),
          sym (append_assoc (concat (ack_fields (sent_ack cmt node uninit))) (drop 25 stale) room),
        )
        (ap (λ n. sign openssl platform n (reply_text (sent_ack cmt node uninit) stale ++ room))
            (sym (length-reply_text cmt node uninit stale e s))
          ∙ sign_lem openssl code_size platform (reply_text (sent_ack cmt node uninit) stale) room
              r)

  make_reply_lem :
      (uninit : Uninit) (stale : Bytes) (node : ℕ) (meta : Metadata)
      → IsUninit uninit stale
      → make_reply openssl platform uninit node meta
        ≡ ok (
          noted node (openssl hmac_key uninit.ack.state) meta,
          packet (reply_text (sent_ack meta.cmt_idx node uninit.ack) stale),
        )
  unfolding make_reply ack_of resize
  make_reply_lem uninit stale node meta u = rw (
    get_attestation_lem openssl code_size platform uninit.ack.state platform,
    load_code openssl code_size platform uninit.ack.state,
    ap (load 0 108) u.resp_holds ∙ load_resp stale u.room u.more u.stale_size u.room_size,
    memcpy_ack_into_buffer_lem
        (record (ack_of (1 ∷ []) node meta uninit.ack) {
          state = openssl hmac_key uninit.ack.state;
        })
        refl (length-sent_output meta.cmt_idx node uninit.ack u.output_fits) (stale ++ u.room)
        (omega (arith, u.stale_size, length-append {0} stale u.room)),
    sign_reply meta.cmt_idx node uninit.ack stale u.room u.output_fits u.stale_size u.room_size,
  )

  -- A follower of trusted-log/main.cc that receives 208 bytes and a code logs them, counts one more
  -- request and answers with the signed acknowledgement of that count, whether or not the code is
  -- that of the bytes: a wrong code is reported and nothing more. The log, with room for an entry,
  -- stays well formed. What is uninitialised has the sizes of its types; the HMAC has 32 bytes.
  pub req_handler_prp-IsLog :
      (text code stale : Bytes) (uninit : Uninit) (ctx : AppContext) (es : List LogEntry) (free : ℕ)
      → length text ≡ msg_size
      → length code ≡ hmac_size
      → IsUninit uninit stale
      → IsLog openssl ctx.metadata.tlog es (suc free)
      → (metadata : Metadata) × (req_handler_prp openssl platform (text ++ code) uninit ctx
          ≡ ok (
              emit
                (reply (
                  packet (
                    reply_text
                      (sent_ack ((ctx.metadata.cmt_idx + 1) % u32_mod) ctx.node_id uninit.ack)
                      stale)))
                (emit_unless
                  (same_bytes (openssl hmac_key text) code)
                  bad_mac
                  (record ctx { metadata = metadata; prp_count = (ctx.prp_count + 1) % u64_mod }))))
        × (metadata.cmt_idx ≡ (ctx.metadata.cmt_idx + 1) % u32_mod)
        × IsLog openssl metadata.tlog
            (es ++ (logged_entry openssl code_size platform text code uninit.entry es ∷ []))
            free
  unfolding req_handler_prp emit_unless apply_protocol
  req_handler_prp-IsLog text code stale uninit ctx es free e k u v =
      let (tlog, done, after) =
        log_message-IsLog openssl code_size platform text code (omega (arith, e)) k uninit.entry
          ctx.metadata es free (omega (arith, e)) v u.entry_fits in
      let applied : Metadata = apply_protocol (record ctx.metadata { tlog = tlog }) in
      let (same_log, same_idx) =
        noted_keeps ctx.node_id (openssl hmac_key uninit.ack.state) applied in
      (
        noted ctx.node_id (openssl hmac_key uninit.ack.state) applied,
        rw (
          text_size_lem openssl code_size platform text code (omega (arith, e)) k ∙ e,
          check_mac_lem openssl code_size platform text code (omega (arith, e)) k,
          done,
          apply_all-single (text ++ code) (record ctx.metadata { tlog = tlog })
              (omega (arith, e, length-append {0} text code)),
          make_reply_lem uninit stale ctx.node_id applied u,
        ),
        same_idx,
        subst
            (λ l.
              IsLog openssl l
                (es ++ (logged_entry openssl code_size platform text code uninit.entry es ∷ []))
                free)
            (sym same_log) after,
      )

  -- The leader, on a response of at most 208 bytes and a code.
  pub cont_func_prp-IsLog :
      (text code : Bytes) (uninit : LogEntry) (ctx : AppContext) (es : List LogEntry) (free : ℕ)
      → length text ≤ log_entry
      → length code ≡ hmac_size
      → Fits log_entry uninit
      → IsLog openssl ctx.metadata.tlog es (suc free)
      → (tlog : TrustedLog) × (cont_func_prp openssl platform (text ++ code) uninit ctx
          ≡ ok (
              emit_unless (same_bytes (openssl hmac_key text) code) bad_mac (record ctx {
                metadata = record ctx.metadata { tlog = tlog };
                count_replies = (ctx.count_replies + 1) % u32_mod;
              })))
        × IsLog openssl tlog
            (es ++ (logged_entry openssl code_size platform text code uninit es ∷ []))
            free
  unfolding cont_func_prp emit_unless
  cont_func_prp-IsLog text code uninit ctx es free e k f v =
      let (tlog, done, after) =
        log_message-IsLog openssl code_size platform text code (omega (arith, e)) k uninit
          ctx.metadata es free e v f in
      (
        tlog,
        rw (check_mac_lem openssl code_size platform text code (omega (arith, e)) k, done),
        after,
      )
