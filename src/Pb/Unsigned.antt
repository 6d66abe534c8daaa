-- ===== src/Pb/Unsigned.antt =====
-- bft-pb/main.cc: the handler of a proposal, on a batch that `flash_batcher` has sent.
use replication_protos.Prelude.{
  ◌+◌, ◌*◌, ◌/◌, ◌%◌, ◌<◌, ◌≡◌, ap, sym, ◌∙◌, List, ◌++◌, arith, Bytes, same_bytes, length,
  length-append, length-drop, take, length-take, drop, take-drop, u32_mod, All,
}
use replication_protos.Outcome.{ok, ◌>>=◌}
use replication_protos.Attest.{Platform, hmac_size, hmac_key}
use replication_protos.Rpc.{reply, report}
use replication_protos.Tlog.Format.{PMsg, p_msg_size}
use replication_protos.Tlog.Roundtrip.{length-p_fields}
use replication_protos.Pb.Format.{AckMsg}
use replication_protos.Pb.Node.{
  AppContext, bad_mac, bad_size, emit, emit_unless, p_msg_bytes, make_reply, req_handler_prp,
  validate_all,
}
use replication_protos.Pb.InStep.{IsRequest, batch_bytes, length-batch_bytes}
use replication_protos.Pb.Reply.{IsUninit}
use replication_protos.Pb.Follower.{Unmoved, emit-Unmoved, Handled, handled, handler_lem}

module _ (openssl : Bytes → Bytes → Bytes)
    (code_size : (k m : Bytes) → length (openssl k m) ≡ hmac_size) (platform : Platform) where
  -- A batch without a code: its last 32 bytes are taken for one.
  module _ (ms : List PMsg) (m : PMsg) (f : All IsRequest ms) (g : IsRequest m) where
    -- What is taken for the text, and for the code.
    abbrev pub taken_text : Bytes
    taken_text = take (length ms * p_msg_size + 100) (batch_bytes ms ++ p_msg_bytes m)

    abbrev pub taken_code : Bytes
    taken_code = drop (length ms * p_msg_size + 100) (batch_bytes ms ++ p_msg_bytes m)

    -- A follower of bft-pb/main.cc that receives fewer than 2^24 requests and one more without a
    -- code, as flash_batcher sends them, reports a wrong size, takes the last 32 bytes for the
    -- code, and handles the requests as a batch without the last one: it exits with status 128 if
    -- they are not in step, and otherwise applies and acknowledges all but the last. The conditions
    -- are those of a signed batch.
    pub req_handler_prp-unsigned :
        (stale : Bytes) (ack : AckMsg) (resp : Bytes) (ctx : AppContext)
        → length ms < 16777216
        → IsUninit ack resp stale
        → ctx.metadata.cmt_idx < u32_mod
        → ctx.leader_exp_cnt < u32_mod
        → Handled openssl code_size platform
            (batch_bytes ms ++ p_msg_bytes m)
            stale
            ms
            ack
            resp
            ctx
            (emit_unless
              (same_bytes (openssl hmac_key taken_text) taken_code)
              bad_mac
              (emit (report bad_size) ctx))
    unfolding emit_unless
    req_handler_prp-unsigned stale ack resp ctx few u small small' =
        handled openssl code_size platform ms (p_msg_bytes m) stale ack resp ctx _ unmoved f u small
          small' run
      where
        whole : length (batch_bytes ms ++ p_msg_bytes m) ≡ length ms * p_msg_size + p_msg_size
        whole = omega (
          arith,
          length-append {0} (batch_bytes ms) (p_msg_bytes m),
          length-batch_bytes ms f,
          length-p_fields m g.0,
        )

        text_length : length taken_text ≡ length ms * p_msg_size + 100
        text_length = omega (
          arith,
          whole,
          length-take {0} (length ms * p_msg_size + 100) (batch_bytes ms ++ p_msg_bytes m),
        )

        code_length : length taken_code ≡ hmac_size
        code_length = omega (
          arith,
          whole,
          length-drop {0} (length ms * p_msg_size + 100) (batch_bytes ms ++ p_msg_bytes m),
        )

        unmoved : Unmoved ctx (
            emit_unless
              (same_bytes (openssl hmac_key taken_text) taken_code)
              bad_mac
              (emit (report bad_size) ctx))
        unmoved = emit-Unmoved (same_bytes (openssl hmac_key taken_text) taken_code) ctx

        number : (length ms * p_msg_size + 100) / p_msg_size ≡ length ms
        number = omega arith

        left_over : (length ms * p_msg_size + 100) % p_msg_size ≡ 100
        left_over = omega arith

        run : req_handler_prp openssl platform (batch_bytes ms ++ p_msg_bytes m) ack resp ctx ≡ (
            validate_all (length ms) 0 (batch_bytes ms ++ p_msg_bytes m) (
              emit_unless
                (same_bytes (openssl hmac_key taken_text) taken_code)
                bad_mac
                (emit (report bad_size) ctx))
            >>= λ c. make_reply openssl platform ack resp c >>= λ r. ok (emit (reply r.1) r.0))
        run =
            ap (λ b. req_handler_prp openssl platform b ack resp ctx)
              (sym (take-drop (length ms * p_msg_size + 100) (batch_bytes ms ++ p_msg_bytes m)))
            ∙ handler_lem openssl code_size platform taken_text taken_code ack resp ctx
                (omega (arith, few, text_length)) code_length
            ∙ rw (
              text_length,
              number,
              left_over,
              take-drop (length ms * p_msg_size + 100) (batch_bytes ms ++ p_msg_bytes m),
            )
