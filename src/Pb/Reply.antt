-- ===== src/Pb/Reply.antt =====
-- bft-pb/main.cc: the response of a follower, and the counters behind a batch.
use replication_protos.Prelude.{
  ℕ, zero, suc, ◌+◌, ◌%◌, ◌<◌, ◌≡◌, refl, ap, sym, ◌∙◌, Bool, true, false, [], ◌∷◌, ◌++◌,
  append_assoc, arith, ◌==◌, if◌then◌else◌, Bytes, load, load_prefix, length, length-append,
  length-drop, drop, drop-append_le, encode_le, length-encode_le, u32_mod,
}
use replication_protos.Outcome.{ok}
use replication_protos.Attest.{Platform, hmac_size, hmac_key}
use replication_protos.Attest.Signed.{get_attestation_lem, load_code}
use replication_protos.Tlog.Format.{out_size}
use replication_protos.Tlog.Node.{sign}
use replication_protos.Tlog.Packet.{sign_lem}
use replication_protos.Pb.Format.{AckMsg, ack_msg_size}
use replication_protos.Pb.Overlap.{written, memcpy_ack_into_buffer_lem, length-written}
use replication_protos.Pb.Node.{AppContext, ack_of, make_reply}
use replication_protos.Pb.InStep.{accepted, advanced}

-- The text of a response: 17 bytes of the acknowledgement over what its buffer held before.
abbrev pub reply_text : AckMsg → Bytes → Bytes
reply_text ack stale = written ack ++ drop 17 stale

-- The acknowledgement of a follower that has applied `cmt` requests.
abbrev pub sent_ack : ℕ → ℕ → AckMsg → AckMsg
sent_ack cmt node uninit = record uninit {
  ack = 1 ∷ [];
  output = encode_le 4 cmt ++ drop 4 uninit.output;
  cmt = cmt;
  sender = node;
}

-- What is uninitialised has the sizes of its types, and the buffer of the response, which holds `stale`
-- where the text of the response will be, has room for a response.
pub record IsUninit (ack : AckMsg) (resp stale : Bytes) : Type 0 where
  pub output_fits : length ack.output ≡ out_size
  pub stale_size : length stale ≡ ack_msg_size
  pub room : Bytes
  pub room_size : length room ≡ hmac_size
  pub more : Bytes
  pub resp_holds : resp ≡ stale ++ (room ++ more)

pub length-sent_output :
    (cmt node : ℕ) (uninit : AckMsg)
    → length uninit.output ≡ out_size
    → length (sent_ack cmt node uninit).output ≡ out_size
length-sent_output cmt node uninit e = omega (
  arith,
  e,
  length-append {0} (encode_le 4 cmt) (drop 4 uninit.output),
  length-encode_le 4 cmt,
  length-drop {0} 4 uninit.output,
)

length-reply_text :
    (cmt node : ℕ) (uninit : AckMsg) (stale : Bytes)
    → length uninit.output ≡ out_size
    → length stale ≡ ack_msg_size
    → length (reply_text (sent_ack cmt node uninit) stale) ≡ ack_msg_size
length-reply_text cmt node uninit stale e s = omega (
  arith,
  s,
  length-written (sent_ack cmt node uninit) refl (length-sent_output cmt node uninit e),
  length-append {0} (written (sent_ack cmt node uninit)) (drop 17 stale),
  length-drop {0} 17 stale,
)

-- The context of a follower after a proposal.
abbrev pub noted : Bytes → AppContext → AppContext
noted state ctx = record ctx {
  metadata =
      (if ctx.node_id == 1
        then record ctx.metadata { f1_last_state = state }
        else record ctx.metadata { f2_last_state = state });
}

pub noted_cmt_idx :
    (state : Bytes) (ctx : AppContext) → (noted state ctx).metadata.cmt_idx ≡ ctx.metadata.cmt_idx
noted_cmt_idx state ctx = by_test (ctx.node_id == 1)
  where
    by_test :
        (t : Bool)
        → (if t
            then record ctx.metadata { f1_last_state = state }
            else record ctx.metadata { f2_last_state = state }).cmt_idx
          ≡ ctx.metadata.cmt_idx
    by_test true = refl
    by_test false = refl

shift : (x n : ℕ) → ((x + 1) % u32_mod + n) % u32_mod ≡ (x + suc n) % u32_mod
shift x n = omega arith

-- What `n` accepted requests leave.
pub advanced_cmt_idx :
    (n : ℕ) (ctx : AppContext)
    → ctx.metadata.cmt_idx < u32_mod
    → (advanced n ctx).metadata.cmt_idx ≡ (ctx.metadata.cmt_idx + n) % u32_mod
advanced_cmt_idx zero ctx h = omega (arith, h)
advanced_cmt_idx (suc n) ctx h =
    advanced_cmt_idx n (accepted ctx) (omega arith) ∙ shift ctx.metadata.cmt_idx n

pub advanced_exp_cnt :
    (n : ℕ) (ctx : AppContext)
    → ctx.leader_exp_cnt < u32_mod
    → (advanced n ctx).leader_exp_cnt ≡ (ctx.leader_exp_cnt + n) % u32_mod
advanced_exp_cnt zero ctx h = omega (arith, h)
advanced_exp_cnt (suc n) ctx h =
    advanced_exp_cnt n (accepted ctx) (omega arith) ∙ shift ctx.leader_exp_cnt n

pub advanced_keeps :
    (n : ℕ) (ctx : AppContext)
    → ((advanced n ctx).node_id ≡ ctx.node_id) × ((advanced n ctx).trace ≡ ctx.trace)
advanced_keeps zero ctx = (refl, refl)
advanced_keeps (suc n) ctx = advanced_keeps n (accepted ctx)

module _ (openssl : Bytes → Bytes → Bytes)
    (code_size : (k m : Bytes) → length (openssl k m) ≡ hmac_size) (platform : Platform) where
  abbrev pub packet : Bytes → Bytes
  packet text = text ++ openssl hmac_key text

  pub make_reply_lem :
      (ack : AckMsg) (resp stale : Bytes) (ctx : AppContext)
      → IsUninit ack resp stale
      → make_reply openssl platform ack resp ctx
        ≡ ok (
          noted (openssl hmac_key ack.state) ctx,
          packet (reply_text (sent_ack ctx.metadata.cmt_idx ctx.node_id ack) stale),
        )
  unfolding make_reply ack_of
  make_reply_lem ack resp stale ctx u = rw (
    get_attestation_lem openssl code_size platform ack.state platform,
    load_code openssl code_size platform ack.state,
    ap (load 0 92) (u.resp_holds ∙ sym (append_assoc stale u.room u.more))
        ∙ load_prefix 92 (stale ++ u.room) u.more
            (omega (arith, u.stale_size, u.room_size, length-append {0} stale u.room)),
    memcpy_ack_into_buffer_lem (record (ack_of ctx ack) { state = openssl hmac_key ack.state }) refl
        sized (stale ++ u.room) (omega (arith, u.stale_size, length-append {0} stale u.room)),
    drop-append_le 17 stale u.room (omega (arith, u.stale_size)),
    sym (
        append_assoc (written (sent_ack ctx.metadata.cmt_idx ctx.node_id ack)) (drop 17 stale)
          u.room),
    signed,
  )
    where
      sized : length (sent_ack ctx.metadata.cmt_idx ctx.node_id ack).output ≡ out_size
      sized = length-sent_output ctx.metadata.cmt_idx ctx.node_id ack u.output_fits

      signed :
          sign openssl platform 60
            (reply_text (sent_ack ctx.metadata.cmt_idx ctx.node_id ack) stale ++ u.room)
          ≡ ok (packet (reply_text (sent_ack ctx.metadata.cmt_idx ctx.node_id ack) stale))
      signed =
          ap
            (λ n.
              sign openssl platform n
                (reply_text (sent_ack ctx.metadata.cmt_idx ctx.node_id ack) stale ++ u.room))
            (sym (
              length-reply_text ctx.metadata.cmt_idx ctx.node_id ack stale u.output_fits
                u.stale_size))
          ∙ sign_lem openssl code_size platform
              (reply_text (sent_ack ctx.metadata.cmt_idx ctx.node_id ack) stale) u.room u.room_size
