-- ===== src/Chain/Relay.antt =====
-- Chain replication behind the head: what the middle and the tail make of a batch.
use replication_protos.Prelude.{
  ℕ, ◌+◌, ◌%◌, ◌^◌, ◌<◌, ◌≡◌, refl, none, some, [], ◌∷◌, ◌++◌, append_assoc, arith, Bytes, length,
  u32_mod, u64_mod, sign_extend,
}
use replication_protos.Rpc.{request, ack, session_of, touch}
use replication_protos.Batch.Contents.{deserialize_all}
use replication_protos.Chain.Msg.{cmt_msg_bytes, zero_header, batch_count, Indexes, parse_indexes}
use replication_protos.Chain.Parse.{stream, parse_indexes-stream, parse_indexes_short}
use replication_protos.Chain.Node.{
  AppContext, head, middle, tail, req_forward, req_commit, resp_size, req_handler_fw, commit_msg,
}

-- The middle of cr/main.cc acknowledges a batch of any size, passes it on to the tail byte for
-- byte, counts, and changes nothing else but the entry that connections[tail] makes.
pub req_handler_fw-middle :
    (b : Bytes) (ctx : AppContext)
    → ctx.node_id ≡ middle
    → req_handler_fw b ctx
      ≡ some (record ctx {
        fw_count = (ctx.fw_count + 1) % u64_mod;
        connections = touch tail ctx.connections;
        trace =
            ctx.trace
            ++ (ack resp_size
                ∷ request (session_of tail ctx.connections) req_forward b resp_size
                ∷ []);
      })
unfolding req_handler_fw
req_handler_fw-middle b ctx e = rw (deserialize_all b) (
    ground (
      arith,
      append_assoc ctx.trace (ack resp_size ∷ [])
          (request (session_of tail ctx.connections) req_forward b resp_size ∷ []),
    ))

req_handler_fw_commit :
    (b : Bytes) (found : Indexes) (ctx : AppContext)
    → ctx.node_id ≡ tail
    → parse_indexes b ≡ some found
    → found.mismatches ≡ []
    → req_handler_fw b ctx
      ≡ some (record ctx {
        fw_count = (ctx.fw_count + 1) % u64_mod;
        connections = touch head ctx.connections;
        trace =
            ctx.trace
            ++ (ack resp_size
                ∷ request
                    (session_of head ctx.connections)
                    req_commit
                    (cmt_msg_bytes (commit_msg found))
                    resp_size
                ∷ []);
      })
unfolding req_handler_fw
req_handler_fw_commit b found ctx e p q = rw (deserialize_all b) (
    ground (
      arith,
      append_assoc ctx.trace (ack resp_size ∷ []) (
          request (session_of head ctx.connections) req_commit (cmt_msg_bytes (commit_msg found))
            resp_size
          ∷ []),
    ))

commit_msg_range :
    (j prev : ℕ)
    → j + 15 < 2 ^ 31
    → commit_msg (record {
      min_idx = j % u32_mod;
      max_idx = (j + 15) % u32_mod;
      prev_idx = prev;
      mismatches = [];
    })
      ≡ record { hdr = zero_header; s_cmt_idx = j; e_cmt_idx = j + 15 }
unfolding commit_msg sign_extend
commit_msg_range j prev h = ground arith

-- The tail of cr/main.cc answers a full batch of the requests j to j+15, for j+15 below 2^31, by
-- its acknowledgement and one commit message to the head that carries j and j+15; it prints
-- nothing, counts, and changes nothing else but the entry that connections[head] makes.
pub req_handler_fw_tail :
    (src dest j : ℕ) (ctx : AppContext)
    → ctx.node_id ≡ tail
    → j + 15 < 2 ^ 31
    → req_handler_fw (stream src dest j batch_count) ctx
      ≡ some (record ctx {
        fw_count = (ctx.fw_count + 1) % u64_mod;
        connections = touch head ctx.connections;
        trace =
            ctx.trace
            ++ (ack resp_size
                ∷ request
                    (session_of head ctx.connections)
                    req_commit
                    (cmt_msg_bytes
                      (record { hdr = zero_header; s_cmt_idx = j; e_cmt_idx = j + 15 }))
                    resp_size
                ∷ []);
      })
req_handler_fw_tail src dest j ctx e h = rw (← commit_msg_range j ((j + 15) % u32_mod) h) (
    req_handler_fw_commit (stream src dest j batch_count) _ ctx e (parse_indexes-stream src dest j)
      refl)

-- The tail of cr/main.cc faults on every batch of fewer than 976 bytes, 15 messages and a header.
pub handler_fw_short :
    (b : Bytes) (ctx : AppContext)
    → ctx.node_id ≡ tail
    → length b < 976
    → req_handler_fw b ctx ≡ none
unfolding req_handler_fw
handler_fw_short b ctx e h = rw (deserialize_all b) (ground (arith, parse_indexes_short b h))
