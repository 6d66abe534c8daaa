-- ===== src/BftChain/Tail.antt =====
-- The tail of the chain: what it checks, and what its commit message carries.
use replication_protos.Prelude.{
  ℕ, ◌+◌, ◌-◌, ◌%◌, ◌≤◌, ◌<◌, ◌≡◌, refl, ap, sym, ◌∙◌, true, false, [], ◌∷◌, ◌++◌, append_assoc,
  arith, ◌==◌, Bytes, load_eq, load-append, load-skip, length, length-append, length-take, take,
  take-append_le, same_bytes_refl, encode_le, u32_mod, u64_mod, minus_one, sign_extend,
}
use replication_protos.Outcome.{ok}
use replication_protos.Rpc.{request, ack, session_of, touch}
use replication_protos.Attest.{Platform, hmac_size, hmac_key}
use replication_protos.Attest.Signed.{signed_bytes, verify-signed, length-signed_bytes}
use replication_protos.Attest.Verified.{verify-append}
use replication_protos.Chain.Msg.{
  msg_size, header_size, CmtMsg, cmt_msg_bytes, zero_header, Indexes, seq_of, parse_from, note_seq,
  advance,
}
use replication_protos.BftChain.Proto.{
  State, head, tail, verify, check_outputs, verify_execution_tail, parse_indexes,
}
use replication_protos.BftChain.Checks.{action, bump}
use replication_protos.BftChain.Middle.{
  IsAction, check_leader_IsAction, handler_tail, acknowledge_verified, IsAction-length,
}
use replication_protos.BftChain.Node.{
  AppContext, req_commit, resp_size, req_handler_fw, commit, send_commit_req, settle, commit_msg,
}

-- What `parse_indexes` makes of any block that holds a header: the third word, and `-1`.
parse_indexes_one :
    (b : Bytes)
    → header_size ≤ length b
    → parse_indexes b
      ≡ ok (record {
        min_idx = seq_of (take header_size b);
        max_idx = minus_one;
        prev_idx = ((seq_of (take header_size b) + u32_mod - 1) % u32_mod + 1) % u32_mod;
        mismatches = [];
      })
unfolding parse_indexes parse_from note_seq advance
parse_indexes_one b h = rw (load_eq 0 header_size b h)

check_outputs-action :
    (c w more : Bytes)
    → length c ≡ msg_size
    → length w ≡ 4
    → check_outputs (action c c w (c ++ more)) tail ≡ ok (true, [])
unfolding check_outputs
check_outputs-action c w more hc hw = rw (
  load-append msg_size msg_size c c (w ++ (c ++ more)) (sym hc) (sym hc),
  load-skip msg_size 68 msg_size c (c ++ (w ++ (c ++ more))) (sym hc),
  load-skip msg_size 4 msg_size c (w ++ (c ++ more)) (sym hc),
  load-append 4 msg_size w c more (sym hw) (sym hc),
  same_bytes_refl c,
)

-- What `check_outputs` of the tail compares: the head's own output and the 64 bytes behind the index.
check_outputs_tail :
    (m : Bytes) (next : ℕ) (a : IsAction m next) (more : Bytes)
    → a.rest ≡ a.command ++ more
    → check_outputs m tail ≡ ok (true, [])
check_outputs_tail m next a more e =
    ap (λ x. check_outputs x tail) (a.shape ∙ ap (action a.command a.command a.word) e)
    ∙ check_outputs-action a.command a.word more a.command_size a.word_size

module _ (openssl : Bytes → Bytes → Bytes)
    (code_size : (k m : Bytes) → length (openssl k m) ≡ hmac_size) (platform : Platform) where
  nonzero :
      (m : Bytes) {next : ℕ}
      → IsAction m next
      → length m < minus_one
      → (length m % u32_mod == 0) ≡ false
  nonzero m a small = nonzero_of (length m) (IsAction-length a) small
    where
      nonzero_of : (k : ℕ) → msg_size + 4 ≤ k → k < minus_one → (k % u32_mod == 0) ≡ false
      nonzero_of k h g = ground arith

  verify_execution_tail_lem :
      (m out : Bytes) (st : State) (a : IsAction m ((st.cmt_idx + 1) % u32_mod)) (more : Bytes)
      → a.rest ≡ a.command ++ more
      → length m < minus_one
      → verify_execution_tail openssl platform (signed_bytes openssl m ++ out) tail st
        ≡ ok (record { holds = true; st = bump st; printed = [] })
  unfolding verify_execution_tail verify
  verify_execution_tail_lem m out st a more e small = rw (
    verify-append openssl platform (signed_bytes openssl m) out
        (verify-signed openssl code_size platform m (omega arith)),
    nonzero m a small,
    check_leader_IsAction m st a,
    check_outputs_tail m ((st.cmt_idx + 1) % u32_mod) a more e,
  )

  commit_lem :
      (b p : Bytes) (found : Indexes) (ctx : AppContext)
      → ctx.node_id ≡ tail
      → verify_execution_tail openssl platform p tail ctx.st
        ≡ ok (record { holds = true; st = bump ctx.st; printed = [] })
      → parse_indexes b ≡ ok found
      → found.mismatches ≡ []
      → {c : CmtMsg} → commit_msg found ≡ c
      → commit openssl platform b p (record ctx {
        fw_count = (ctx.fw_count + 1) % u64_mod;
        trace = ctx.trace ++ (ack resp_size ∷ []);
      })
        ≡ ok (record ctx {
          fw_count = (ctx.fw_count + 1) % u64_mod;
          st = bump ctx.st;
          connections = touch head ctx.connections;
          trace =
              ctx.trace
              ++ (ack resp_size
                  ∷ request (session_of head ctx.connections) req_commit (cmt_msg_bytes c) resp_size
                  ∷ []);
        })
  unfolding commit settle send_commit_req
  commit_lem b p found ctx h v q k r = ground (
    arith,
    append_assoc ctx.trace (ack resp_size ∷ []) (
        request (session_of head ctx.connections) req_commit (cmt_msg_bytes (commit_msg found))
          resp_size
        ∷ []),
  )

  -- The commit message for a signed text: the third word of the code, and `-1`.
  commit_msg_code :
      (text : Bytes) (prev : ℕ)
      → commit_msg (record {
        min_idx = seq_of (take header_size (signed_bytes openssl text));
        max_idx = minus_one;
        prev_idx = prev;
        mismatches = [];
      })
        ≡ record {
          hdr = zero_header;
          s_cmt_idx = sign_extend (seq_of (take header_size (openssl hmac_key text)));
          e_cmt_idx = u64_mod - 1;
        }
  unfolding commit_msg sign_extend
  commit_msg_code text prev = rw (
      take-append_le header_size (openssl hmac_key text) (encode_le 8 (length text) ++ text)
        (omega (arith, code_size hmac_key text)))

  -- The tail of bft-cr/main.cc, given the message that a middle has relayed for a message of the
  -- head under the next index, acknowledges it, counts, advances its index, prints nothing, and
  -- sends the head one commit, whose start is the third 32-bit word of the HMAC of the relayed
  -- message, extended by its sign, and whose end is 2^64-1.
  pub handler_commits :
      (m : Bytes) (ctx : AppContext) (a : IsAction m ((ctx.st.cmt_idx + 1) % u32_mod))
      (more : Bytes)
      → a.rest ≡ a.command ++ more
      → ctx.node_id ≡ tail
      → length m + 1000 < minus_one
      → let inner = signed_bytes openssl m ++ take (msg_size + 4) m in
        req_handler_fw openssl platform (signed_bytes openssl inner) ctx
        ≡ ok (record ctx {
          fw_count = (ctx.fw_count + 1) % u64_mod;
          st = bump ctx.st;
          connections = touch head ctx.connections;
          trace =
              ctx.trace
              ++ (ack resp_size
                  ∷ request
                      (session_of head ctx.connections)
                      req_commit
                      (cmt_msg_bytes (record {
                        hdr = zero_header;
                        s_cmt_idx =
                            sign_extend (seq_of (take header_size (openssl hmac_key inner)));
                        e_cmt_idx = u64_mod - 1;
                      }))
                      resp_size
                  ∷ []);
        })
  handler_commits m ctx a more e h small =
      handler_tail openssl platform (signed_bytes openssl inner) ctx
        (verify-signed openssl code_size platform inner (omega (arith, size))) h
      ∙ ap (commit openssl platform (signed_bytes openssl inner) inner)
          (acknowledge_verified (length inner % u32_mod) ctx (omega (arith, size)))
      ∙ commit_lem (signed_bytes openssl inner) inner _ ctx h
          (verify_execution_tail_lem m (take (msg_size + 4) m) ctx.st a more e (omega arith))
          (parse_indexes_one (signed_bytes openssl inner)
            (omega (arith, length-signed_bytes openssl code_size platform inner)))
          refl (commit_msg_code inner _)
    where
      inner : Bytes
      inner = signed_bytes openssl m ++ take (msg_size + 4) m

      size : length inner ≤ length m + 108
      size = omega (
        arith,
        length-append {0} (signed_bytes openssl m) (take (msg_size + 4) m),
        length-signed_bytes openssl code_size platform m,
        length-take {0} (msg_size + 4) m,
      )
