-- ===== src/BftChain/Middle.antt =====
-- The middle of the chain: what it forwards, and what happens to a forged message.
use replication_protos.Prelude.{
  ℕ, ◌+◌, ◌%◌, ◌≤◌, ◌<◌, ◌≡◌, ◌≢◌, ◌⊎◌, inl, inr, refl, ap, ◌∙◌, true, none, some, [], ◌∷◌, ◌++◌,
  append-nil, append_assoc, arith, Bytes, zeros, load_all, load_eq, store_front, store_behind,
  length, length-append, length-replicate, length-drop, length-take, take, drop, drop_all,
  decode_le, u32_mod, u64_mod, minus_one,
}
use replication_protos.Outcome.{ok, fault}
use replication_protos.Rpc.{request, ack, session_of, touch}
use replication_protos.Batch.Contents.{deserialize_all}
use replication_protos.Attest.{Platform, hmac_size, verify_get_msg}
use replication_protos.Attest.Signed.{signed_bytes, verify-signed, sign_msg_lem}
use replication_protos.Attest.Verified.{verify_get_msg_fault}
use replication_protos.Chain.Msg.{msg_size}
use replication_protos.BftChain.Proto.{
  State, middle, tail, verify, check_leader, construct_msg_middle, verify_execution,
  verify_execution_tail,
}
use replication_protos.BftChain.Checks.{action, bump, check_leader_cases, check_leader_short}
use replication_protos.BftChain.Node.{
  AppContext, req_forward, resp_size, req_handler_fw, pass_on, commit, forward_req, settle,
  acknowledge,
}

-- A verified message cut into the parts that the middle looks at.
pub record IsAction (m : Bytes) (next : ℕ) : Type 0 where
  pub command : Bytes
  pub word : Bytes
  pub rest : Bytes
  pub shape : m ≡ action command command word rest
  pub command_size : length command ≡ msg_size
  pub word_size : length word ≡ 4
  pub index : decode_le word ≡ next

length-zeros : (n : ℕ) → length (zeros n) ≡ n
length-zeros n = length-replicate n 0

-- The handler around the part of the middle and around that of the tail.
module _ (openssl : Bytes → Bytes → Bytes) (platform : Platform) (b : Bytes) (ctx : AppContext)
    {n : ℕ} {p : Bytes} (verified : verify_get_msg openssl platform b ≡ some (n, p)) where
  acknowledge-node_id : (acknowledge n ctx).node_id ≡ ctx.node_id
  unfolding acknowledge
  acknowledge-node_id = ground arith

  handler_middle :
      {c : AppContext}
      → ctx.node_id ≡ middle
      → pass_on openssl platform b p (acknowledge n ctx) ≡ ok c
      → c.node_id ≡ middle
      → req_handler_fw openssl platform b ctx ≡ ok c
  unfolding req_handler_fw verify
  handler_middle {c} h e k = rw (deserialize_all b, verified) (ground (arith, acknowledge-node_id))

  handler_middle_fault :
      ctx.node_id ≡ middle
      → pass_on openssl platform b p (acknowledge n ctx) ≡ fault
      → req_handler_fw openssl platform b ctx ≡ fault
  unfolding req_handler_fw verify
  handler_middle_fault h e = rw (deserialize_all b, verified) (ground (arith, acknowledge-node_id))

  pub handler_tail :
      ctx.node_id ≡ tail
      → req_handler_fw openssl platform b ctx ≡ commit openssl platform b p (acknowledge n ctx)
  unfolding req_handler_fw verify
  handler_tail h = rw (deserialize_all b, verified) (ground (arith, acknowledge-node_id))

pub check_leader_IsAction :
    (m : Bytes) (st : State)
    → IsAction m ((st.cmt_idx + 1) % u32_mod)
    → check_leader m st ≡ ok (record { holds = true; st = bump st; printed = [] })
check_leader_IsAction m st a =
    ap (λ x. check_leader x st) a.shape
    ∙ (check_leader_cases a.command a.command a.word a.rest st a.command_size a.command_size
          a.word_size).0
        refl a.index

pub IsAction-length : {m : Bytes} {next : ℕ} → IsAction m next → msg_size + 4 ≤ length m
IsAction-length {m} a = omega (
  arith,
  ap length a.shape,
  length-append {0} a.command (a.command ++ (a.word ++ a.rest)),
  length-append {0} a.command (a.word ++ a.rest),
  length-append {0} a.word a.rest,
  a.command_size,
  a.word_size,
)

pub acknowledge_verified :
    (n : ℕ) (ctx : AppContext)
    → n ≢ minus_one
    → acknowledge n ctx ≡ record ctx {
      fw_count = (ctx.fw_count + 1) % u64_mod;
      trace = ctx.trace ++ (ack resp_size ∷ []);
    }
unfolding acknowledge
acknowledge_verified n ctx h = ground arith

forward_after_ack :
    (b : Bytes) (ctx : AppContext)
    → forward_req tail b (record ctx {
      fw_count = (ctx.fw_count + 1) % u64_mod;
      trace = ctx.trace ++ (ack resp_size ∷ []);
      st = bump ctx.st;
    })
      ≡ record ctx {
        fw_count = (ctx.fw_count + 1) % u64_mod;
        st = bump ctx.st;
        connections = touch tail ctx.connections;
        trace =
            ctx.trace
            ++ (ack resp_size
                ∷ request (session_of tail ctx.connections) req_forward b resp_size
                ∷ []);
      }
unfolding forward_req
forward_after_ack b ctx = ground (
  arith,
  append_assoc ctx.trace (ack resp_size ∷ [])
      (request (session_of tail ctx.connections) req_forward b resp_size ∷ []),
)

module _ (openssl : Bytes → Bytes → Bytes)
    (code_size : (k m : Bytes) → length (openssl k m) ≡ hmac_size) (platform : Platform) where
  -- What the middle sends: the message as it came and its own output, signed.
  abbrev pub relayed : Bytes → Bytes → Bytes
  relayed b m = signed_bytes openssl (b ++ take (msg_size + 4) m)

  construct_msg_middle_lem :
      (b m : Bytes)
      → msg_size + 4 ≤ length m
      → construct_msg_middle openssl platform b (length b) m
        ≡ ok (length b + (hmac_size + 8 + msg_size + 4), relayed b m)
  unfolding construct_msg_middle
  construct_msg_middle_lem b m h = rw (
    load_all (length b) b refl,
    store_front b (zeros (length b + msg_size + 4))
        (omega (arith, length-zeros (length b + msg_size + 4))),
    load_eq 0 (msg_size + 4) m (omega arith),
    store_behind (length b) (take (msg_size + 4) m) b
        (drop (length b) (zeros (length b + msg_size + 4))) refl
        (omega (
          arith,
          length-take {0} (msg_size + 4) m,
          length-drop {0} (length b) (zeros (length b + msg_size + 4)),
          length-zeros (length b + msg_size + 4),
        )),
    drop_all (length (take (msg_size + 4) m)) (drop (length b) (zeros (length b + msg_size + 4))) (
        omega (
          arith,
          length-take {0} (msg_size + 4) m,
          length-drop {0} (length b) (zeros (length b + msg_size + 4)),
          length-zeros (length b + msg_size + 4),
        )),
    append-nil (take (msg_size + 4) m),
    sign_msg_lem openssl code_size platform (b ++ take (msg_size + 4) m)
        (zeros (length b + (hmac_size + 8 + msg_size + 4)))
        (omega (
          arith,
          length-zeros (length b + (hmac_size + 8 + msg_size + 4)),
          length-append {0} b (take (msg_size + 4) m),
          length-take {0} (msg_size + 4) m,
        )),
  )

  pass_on_lem :
      (b m : Bytes) (ctx : AppContext)
      → IsAction m ((ctx.st.cmt_idx + 1) % u32_mod)
      → pass_on openssl platform b m ctx
        ≡ ok (forward_req tail (relayed b m) (record ctx { st = bump ctx.st }))
  unfolding pass_on verify_execution settle
  pass_on_lem b m ctx a =
      rw (check_leader_IsAction m ctx.st a, construct_msg_middle_lem b m (IsAction-length a))

  pass_on_fault : (b : Bytes) (ctx : AppContext) → pass_on openssl platform b (zeros 1) ctx ≡ fault
  unfolding pass_on verify_execution
  pass_on_fault b ctx = rw (check_leader_short (zeros 1) ctx.st (omega arith))

  verify_short : (b : Bytes) → length b < 40 → verify_get_msg openssl platform b ≡ none
  verify_short b h = verify_get_msg_fault openssl code_size platform b (inl h)

  commit_fault :
      (b : Bytes) (ctx : AppContext)
      → ctx.node_id ≡ tail
      → commit openssl platform b (zeros 1) ctx ≡ fault
  unfolding commit verify_execution_tail verify
  commit_fault b ctx h = rw (h, verify_short (zeros 1) (omega arith))

  -- The middle of bft-cr/main.cc, given a signed message of the head under the next index and
  -- shorter than 2^32-1 bytes, acknowledges it, counts, advances its index, prints nothing, and
  -- sends the tail the message with its own output behind it, signed.
  pub handler_relays :
      (m : Bytes) (ctx : AppContext)
      → ctx.node_id ≡ middle
      → length m < minus_one
      → IsAction m ((ctx.st.cmt_idx + 1) % u32_mod)
      → req_handler_fw openssl platform (signed_bytes openssl m) ctx
        ≡ ok (record ctx {
          fw_count = (ctx.fw_count + 1) % u64_mod;
          st = bump ctx.st;
          connections = touch tail ctx.connections;
          trace =
              ctx.trace
              ++ (ack resp_size
                  ∷ request
                      (session_of tail ctx.connections)
                      req_forward
                      (relayed (signed_bytes openssl m) m)
                      resp_size
                  ∷ []);
        })
  handler_relays m ctx e small a =
      handler_middle openssl platform (signed_bytes openssl m) ctx
        (verify-signed openssl code_size platform m (omega arith)) e
        (ap (pass_on openssl platform (signed_bytes openssl m) m)
            (acknowledge_verified (length m % u32_mod) ctx (omega arith))
          ∙ pass_on_lem (signed_bytes openssl m) m _ a
          ∙ ap ok (forward_after_ack (relayed (signed_bytes openssl m) m) ctx))
        e

  -- If the verification of a message fails, the handler of bft-cr/main.cc faults at the middle and
  -- at the tail: it goes on with the one zero byte that verify returns and reads past its end.
  pub handler_forged :
      (b : Bytes) (ctx : AppContext)
      → (ctx.node_id ≡ middle) ⊎ (ctx.node_id ≡ tail)
      → verify_get_msg openssl platform b ≡ some (minus_one, zeros 1)
      → req_handler_fw openssl platform b ctx ≡ fault
  handler_forged b ctx (inl h) e =
      handler_middle_fault openssl platform b ctx e h (pass_on_fault b (acknowledge minus_one ctx))
  handler_forged b ctx (inr h) e =
      handler_tail openssl platform b ctx e h
      ∙ commit_fault b (acknowledge minus_one ctx)
          (acknowledge-node_id openssl platform b ctx e ∙ h)
