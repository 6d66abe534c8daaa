-- ===== src/Pb/Exchange.antt =====
-- bft-pb/main.cc: a batch from the leader to a follower.
use replication_protos.Prelude.{
  ℕ, ◌+◌, ◌%◌, ◌<◌, ◌≡◌, inl, inr, refl, ap, sym, subst, ◌∙◌, [], ◌∷◌, ◌++◌, arith, Bytes, length,
  same_bytes_refl, u32_mod, u64_mod,
}
use replication_protos.Outcome.{ok}
use replication_protos.Attest.{Platform, hmac_size, hmac_key}
use replication_protos.Rpc.{reply, to_each, route_of}
use replication_protos.Tlog.Node.{req_propose}
use replication_protos.Pb.Format.{AckMsg, ack_msg_size}
use replication_protos.Pb.Node.{
  AppContext, Metadata, bad_mac, emit, emit_unless, other_state, request_msg, broadcast,
  req_handler_prp,
}
use replication_protos.Pb.InStep.{InStep, batch_bytes}
use replication_protos.Pb.Reply.{IsUninit, reply_text, sent_ack, packet}
use replication_protos.Pb.Follower.{req_handler_prp-InStep}
use replication_protos.Pb.Run.{send_loop}
use replication_protos.Pb.Requests.{
  requests, requests-IsRequest, requests-InStep, length-requests, HasHashes,
}
use replication_protos.Pb.Leader.{
  IsHolding, signed, send_loop-fill, send_req-full, poll_quiet, broadcast_any, broadcast-to_each,
}

-- The follower expects the leader's next request, and has the states that the leader sends.
pub record Agrees (i : ℕ) (leader : Metadata) (f : AppContext) : Type 0 where
  pub next : f.leader_exp_cnt ≡ i % u32_mod
  pub mine : f.metadata.my_last_state ≡ leader.mock_h1
  pub other : other_state f ≡ leader.mock_h2
  pub small : f.metadata.cmt_idx < u32_mod

Agrees-InStep :
    (n i : ℕ) (leader : Metadata) (f : AppContext)
    → Agrees i leader f
    → InStep f.leader_exp_cnt f.metadata.my_last_state (other_state f) (requests n i leader)
Agrees-InStep n i leader f a =
    subst (λ o. InStep f.leader_exp_cnt f.metadata.my_last_state o (requests n i leader))
      (sym a.other)
      (subst (λ m. InStep f.leader_exp_cnt m leader.mock_h2 (requests n i leader)) (sym a.mine)
        (subst (λ c. InStep c leader.mock_h1 leader.mock_h2 (requests n i leader)) (sym a.next)
          (requests-InStep n i leader)))

module _ (openssl : Bytes → Bytes → Bytes)
    (code_size : (k m : Bytes) → length (openssl k m) ≡ hmac_size) (platform : Platform) where
  -- The leader's side.
  send_loop-batch :
      (i : ℕ) (ctx : AppContext)
      → IsHolding ctx.batcher []
      → HasHashes ctx.metadata
      → (l : AppContext) × (send_loop openssl platform 17 i ctx [] ≡ ok (l, []))
        × (l.trace
            ≡ ctx.trace
              ++ to_each req_propose
                  (λ dest. signed openssl code_size platform (requests 16 i ctx.metadata))
                  (ack_msg_size + hmac_size)
                  (route_of ctx.connections)
                  ctx.metadata.followers)
        × IsHolding l.batcher (request_msg (16 + i) ctx.metadata ∷ [])
  unfolding send_loop
  send_loop-batch i ctx v h =
      let (b, filled, held) =
        send_loop-fill openssl code_size platform 16 1 17 i (16 + i) ctx [] refl refl v h
          (omega arith) in
      let (b', sent, last) =
        send_req-full openssl code_size platform (16 + i) ctx.metadata.followers
          (record ctx { batcher = b }) (requests 16 i ctx.metadata) held h
          (requests-IsRequest 16 i ctx.metadata h) (length-requests 16 i ctx.metadata) in
      let l : AppContext =
        record (broadcast (signed openssl code_size platform (requests 16 i ctx.metadata))
          (ack_msg_size + hmac_size) ctx.metadata.followers (record ctx { batcher = b })) {
            batcher = b';
            enqueued_msgs_cnt = (ctx.enqueued_msgs_cnt + 1) % u64_mod;
          } in
      (
        l,
        filled ∙ rw (sent, poll_quiet l openssl platform),
        broadcast_any (signed openssl code_size platform (requests 16 i ctx.metadata))
              (ack_msg_size + hmac_size) ctx.metadata.followers ctx b
            ∙ broadcast-to_each (signed openssl code_size platform (requests 16 i ctx.metadata))
                (ack_msg_size + hmac_size) ctx.metadata.followers ctx,
        last,
      )

  -- The leader of bft-pb/main.cc, whose batcher is empty, sends 17 requests from number i on with
  -- nothing delivered meanwhile: it sends every follower, over the session of that follower, one
  -- request with the first 16 as a signed batch, sends nothing else, and keeps the last. A follower
  -- that expects number i, and holds the states that the leader sends along, applies all 16,
  -- answers with the signed acknowledgement of its new count, reports nothing and expects number
  -- i+16, modulo 2^32. The leader's hashes and what the follower leaves uninitialised have the
  -- sizes of their types; the HMAC has 32 bytes.
  pub send_loop-req_handler_prp :
      (i : ℕ) (ctx f : AppContext) (ack : AckMsg) (resp stale : Bytes)
      → IsHolding ctx.batcher []
      → HasHashes ctx.metadata
      → Agrees i ctx.metadata f
      → IsUninit ack resp stale
      → (l : AppContext) × (f' : AppContext) × (send_loop openssl platform 17 i ctx [] ≡ ok (l, []))
        × (l.trace
            ≡ ctx.trace
              ++ to_each req_propose
                  (λ dest. signed openssl code_size platform (requests 16 i ctx.metadata))
                  (ack_msg_size + hmac_size)
                  (route_of ctx.connections)
                  ctx.metadata.followers)
        × IsHolding l.batcher (request_msg (16 + i) ctx.metadata ∷ [])
        × (req_handler_prp openssl platform
              (signed openssl code_size platform (requests 16 i ctx.metadata))
              ack
              resp
              f
            ≡ ok (
                emit
                  (reply (
                    packet openssl code_size platform (
                      reply_text
                        (sent_ack ((f.metadata.cmt_idx + 16) % u32_mod) f.node_id ack)
                        stale)))
                  f'))
        × (f'.metadata.cmt_idx ≡ (f.metadata.cmt_idx + 16) % u32_mod)
        × (f'.leader_exp_cnt ≡ (i + 16) % u32_mod)
        × (f'.trace ≡ f.trace)
  unfolding emit_unless
  send_loop-req_handler_prp i ctx f ack resp stale v h a u =
      let (l, sent, traced, held) = send_loop-batch i ctx v h in
      elim (req_handler_prp-InStep openssl code_size platform (requests 16 i ctx.metadata)
        (openssl hmac_key (batch_bytes (requests 16 i ctx.metadata))) stale ack resp f
        (requests-IsRequest 16 i ctx.metadata h) few
        (code_size hmac_key (batch_bytes (requests 16 i ctx.metadata))) u a.small small') [
          | inr (stray, _) ↦ absurd (stray (Agrees-InStep 16 i ctx.metadata f a))
          | inl (_, (f', run, cmt, exp, trace)) ↦ (
            l,
            f',
            sent,
            traced,
            held,
            run,
            cmt,
            exp ∙ wrapped,
            trace
                ∙ ap (λ t. (emit_unless t bad_mac f).trace)
                    (same_bytes_refl (openssl hmac_key (batch_bytes (requests 16 i ctx.metadata)))),
          )
        ]
    where
      few : length (requests 16 i ctx.metadata) < 16777216
      few = omega (arith, length-requests 16 i ctx.metadata)

      small' : f.leader_exp_cnt < u32_mod
      small' = omega (arith, a.next)

      wrapped : (f.leader_exp_cnt + 16) % u32_mod ≡ (i + 16) % u32_mod
      wrapped = omega (arith, a.next)
