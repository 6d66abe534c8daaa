-- ===== src/Pb/Follower.antt =====
-- bft-pb/main.cc: the handler of a proposal, on a batch and a code.
use replication_protos.Prelude.{
  ◌+◌, ◌*◌, ◌/◌, ◌%◌, ◌<◌, ◌≡◌, ◌⊎◌, inl, inr, refl, ap, sym, subst, ◌∙◌, Bool, true, false, List,
  [], ◌++◌, arith, ◌==◌, if◌then◌else◌, Bytes, same_bytes, length, u32_mod, All,
}
use replication_protos.Outcome.{ok, exited, ◌>>=◌}
use replication_protos.Attest.{Platform, hmac_size, hmac_key}
use replication_protos.Rpc.{reply, report}
use replication_protos.Tlog.Format.{PMsg, p_msg_size}
use replication_protos.Tlog.Packet.{text_size_lem, check_mac_lem}
use replication_protos.Pb.Format.{AckMsg}
use replication_protos.Pb.Node.{
  AppContext, Diagnostic, bad_mac, bad_size, emit, emit_unless, other_state, make_reply,
  req_handler_prp, validate_all,
}
use replication_protos.Pb.InStep.{
  InStep, IsRequest, advanced, batch_bytes, length-batch_bytes, validate_all-InStep,
}
use replication_protos.Pb.Reply.{
  reply_text, sent_ack, IsUninit, noted, noted_cmt_idx, advanced_cmt_idx, advanced_exp_cnt,
  advanced_keeps, packet, make_reply_lem,
}

-- A diagnostic changes nothing that the validation reads.
pub record Unmoved (ctx seen : AppContext) : Type 0 where
  pub same_cnt : seen.leader_exp_cnt ≡ ctx.leader_exp_cnt
  pub same_meta : seen.metadata ≡ ctx.metadata
  pub same_node : seen.node_id ≡ ctx.node_id

emit_unless-Unmoved :
    (t : Bool) (d : Diagnostic) (ctx : AppContext) → Unmoved ctx (emit_unless t d ctx)
unfolding emit_unless emit
emit_unless-Unmoved true d ctx = record { same_cnt = refl; same_meta = refl; same_node = refl }
emit_unless-Unmoved false d ctx = record { same_cnt = refl; same_meta = refl; same_node = refl }

pub emit-Unmoved :
    (t : Bool) (ctx : AppContext) → Unmoved ctx (emit_unless t bad_mac (emit (report bad_size) ctx))
unfolding emit_unless emit
emit-Unmoved true ctx = record { same_cnt = refl; same_meta = refl; same_node = refl }
emit-Unmoved false ctx = record { same_cnt = refl; same_meta = refl; same_node = refl }

InStep-Unmoved :
    (ctx seen : AppContext) (ms : List PMsg)
    → Unmoved ctx seen
    → InStep seen.leader_exp_cnt seen.metadata.my_last_state (other_state seen) ms
      ≡ InStep ctx.leader_exp_cnt ctx.metadata.my_last_state (other_state ctx) ms
unfolding other_state
InStep-Unmoved ctx seen ms u =
    ap (λ k. InStep k seen.metadata.my_last_state (other_state seen) ms) u.same_cnt
    ∙ ap
        (λ m.
          InStep ctx.leader_exp_cnt m.my_last_state
            (if seen.node_id == 1 then m.f2_last_state else m.f1_last_state) ms)
        u.same_meta
    ∙ ap
        (λ k.
          InStep ctx.leader_exp_cnt ctx.metadata.my_last_state
            (if k == 1 then ctx.metadata.f2_last_state else ctx.metadata.f1_last_state) ms)
        u.same_node

module _ (openssl : Bytes → Bytes → Bytes)
    (code_size : (k m : Bytes) → length (openssl k m) ≡ hmac_size) (platform : Platform) where
  -- The handler is the validation and the response.
  pub handler_lem :
      (text code : Bytes) (ack : AckMsg) (resp : Bytes) (ctx : AppContext)
      → length text < u32_mod
      → length code ≡ hmac_size
      → req_handler_prp openssl platform (text ++ code) ack resp ctx ≡ (
          validate_all (length text / p_msg_size) 0 (text ++ code) (
            emit_unless
              (same_bytes (openssl hmac_key text) code)
              bad_mac
              (emit_unless (length text % p_msg_size == 0) bad_size ctx))
          >>= λ c. make_reply openssl platform ack resp c >>= λ r. ok (emit (reply r.1) r.0))
  unfolding req_handler_prp
  handler_lem text code ack resp ctx small k = rw (
    check_mac_lem openssl code_size platform text code small k,
    text_size_lem openssl code_size platform text code small k,
  )

  -- On a batch of whole requests the size is right.
  batch_lem :
      (ms : List PMsg) (code : Bytes) (ack : AckMsg) (resp : Bytes) (ctx : AppContext)
      → All IsRequest ms
      → length ms < 16777216
      → length code ≡ hmac_size
      → req_handler_prp openssl platform (batch_bytes ms ++ code) ack resp ctx ≡ (
          validate_all
            (length ms)
            0
            (batch_bytes ms ++ code)
            (emit_unless (same_bytes (openssl hmac_key (batch_bytes ms)) code) bad_mac ctx)
          >>= λ c. make_reply openssl platform ack resp c >>= λ r. ok (emit (reply r.1) r.0))
  unfolding emit_unless
  batch_lem ms code ack resp ctx f few k =
      handler_lem (batch_bytes ms) code ack resp ctx (omega (arith, few, length-batch_bytes ms f)) k
      ∙ rw (length-batch_bytes ms f, whole, ap (λ k. k == 0) even)
    where
      whole : length ms * p_msg_size / p_msg_size ≡ length ms
      whole = omega arith

      even : length ms * p_msg_size % p_msg_size ≡ 0
      even = omega arith

  -- What the handler does with the requests `ms`, seen from `seen`, which differs from `ctx` in the trace.
  abbrev pub Handled : Bytes → Bytes → List PMsg → AckMsg → Bytes → AppContext → AppContext → Type 0
  Handled body stale ms ack resp ctx seen =
      (InStep ctx.leader_exp_cnt ctx.metadata.my_last_state (other_state ctx) ms
        × ((ctx' : AppContext) × (req_handler_prp openssl platform body ack resp ctx
              ≡ ok (
                  emit
                    (reply (
                      packet openssl code_size platform (
                        reply_text
                          (sent_ack ((ctx.metadata.cmt_idx + length ms) % u32_mod) ctx.node_id ack)
                          stale)))
                    ctx'))
            × (ctx'.metadata.cmt_idx ≡ (ctx.metadata.cmt_idx + length ms) % u32_mod)
            × (ctx'.leader_exp_cnt ≡ (ctx.leader_exp_cnt + length ms) % u32_mod)
            × (ctx'.trace ≡ seen.trace)))
      ⊎ (¬ (InStep ctx.leader_exp_cnt ctx.metadata.my_last_state (other_state ctx) ms)
          × (req_handler_prp openssl platform body ack resp ctx ≡ exited 128))

  pub handled :
      (ms : List PMsg) (more stale : Bytes) (ack : AckMsg) (resp : Bytes) (ctx seen : AppContext)
      → Unmoved ctx seen
      → All IsRequest ms
      → IsUninit ack resp stale
      → ctx.metadata.cmt_idx < u32_mod
      → ctx.leader_exp_cnt < u32_mod
      → (req_handler_prp openssl platform (batch_bytes ms ++ more) ack resp ctx ≡ (
          validate_all (length ms) 0 (batch_bytes ms ++ more) seen >>= λ c.
          make_reply openssl platform ack resp c >>= λ r. ok (emit (reply r.1) r.0)))
      → Handled (batch_bytes ms ++ more) stale ms ack resp ctx seen
  handled ms more stale ack resp ctx seen unmoved f u small small' run_eq =
      elim (validate_all-InStep [] more ms 0 seen refl f) [
        | inr (stray, run) ↦ inr ((λ s. stray (subst (λ T. T) (sym steps) s)), run_eq ∙ rw (run))
        | inl (s, run) ↦ inl (
          subst (λ T. T) steps s,
          (
            noted (openssl hmac_key ack.state) (advanced (length ms) seen),
            run_eq
                ∙ rw (
                  run,
                  make_reply_lem openssl code_size platform ack resp stale
                      (advanced (length ms) seen) u,
                  counted,
                  (advanced_keeps (length ms) seen).0,
                  unmoved.same_node,
                ),
            noted_cmt_idx (openssl hmac_key ack.state) (advanced (length ms) seen) ∙ counted,
            expected,
            (advanced_keeps (length ms) seen).1,
          ),
        )
      ]
    where
      steps :
          InStep seen.leader_exp_cnt seen.metadata.my_last_state (other_state seen) ms
          ≡ InStep ctx.leader_exp_cnt ctx.metadata.my_last_state (other_state ctx) ms
      steps = InStep-Unmoved ctx seen ms unmoved

      counted :
          (advanced (length ms) seen).metadata.cmt_idx
          ≡ (ctx.metadata.cmt_idx + length ms) % u32_mod
      counted =
          advanced_cmt_idx (length ms) seen
            (subst (λ m. m.cmt_idx < u32_mod) (sym unmoved.same_meta) small)
          ∙ ap (λ m. (m.cmt_idx + length ms) % u32_mod) unmoved.same_meta

      expected :
          (advanced (length ms) seen).leader_exp_cnt ≡ (ctx.leader_exp_cnt + length ms) % u32_mod
      expected =
          advanced_exp_cnt (length ms) seen (subst (λ c. c < u32_mod) (sym unmoved.same_cnt) small')
          ∙ ap (λ c. (c + length ms) % u32_mod) unmoved.same_cnt

  -- A follower of bft-pb/main.cc that receives fewer than 2^24 requests and a code exits with
  -- status 128 unless the requests count up from the number that it expects, in their counter and
  -- in their output, and carry its own last state and that of the other follower. Otherwise it
  -- applies all of them, advances its two counters by their number modulo 2^32, and answers with
  -- the signed acknowledgement; a wrong code adds a report and nothing more. What is uninitialised
  -- has the sizes of its types, the counters and the requests' counters are below 2^32, and the
  -- HMAC has 32 bytes.
  pub req_handler_prp-InStep :
      (ms : List PMsg) (code stale : Bytes) (ack : AckMsg) (resp : Bytes) (ctx : AppContext)
      → All IsRequest ms
      → length ms < 16777216
      → length code ≡ hmac_size
      → IsUninit ack resp stale
      → ctx.metadata.cmt_idx < u32_mod
      → ctx.leader_exp_cnt < u32_mod
      → Handled
          (batch_bytes ms ++ code)
          stale
          ms
          ack
          resp
          ctx
          (emit_unless (same_bytes (openssl hmac_key (batch_bytes ms)) code) bad_mac ctx)
  req_handler_prp-InStep ms code stale ack resp ctx f few k u small small' =
      handled ms code stale ack resp ctx _
        (emit_unless-Unmoved (same_bytes (openssl hmac_key (batch_bytes ms)) code) bad_mac ctx) f u
        small small' (batch_lem ms code ack resp ctx f few k)
