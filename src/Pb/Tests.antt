-- ===== src/Pb/Tests.antt =====
-- bft-pb/ at concrete inputs, with the stand-in for the HMAC of the tests of crypto/.
use replication_protos.Prelude.{
  ℕ, ◌+◌, ◌%◌, ◌<◌, ◌≡◌, refl, not, ◌==◌, some, [], ◌∷◌, ◌++◌, arith, Bytes, zeros, encode_le,
  decode_le, same_bytes,
}
use replication_protos.Attest.{native, hmac_key}
use replication_protos.Attest.Tests.{sum_code, sum_code_size}
use replication_protos.Rpc.{report, reply, to_each, route_of}
use replication_protos.Tlog.Node.{req_propose}
use replication_protos.A2m.Layout.{length-zeros}
use replication_protos.Tlog.Format.{PMsg, p_msg_size, f_get_ack_val, f_get_cmt, f_get_sender}
use replication_protos.Pb.Format.{AckMsg, memcpy_ack_into_buffer}
use replication_protos.Pb.Overlap.{f_get-memcpy_ack_into_buffer}
use replication_protos.Pb.Node.{
  AppContext, batch_count, other_state, request_msg, req_handler_prp, bad_mac, bad_size, emit,
  emit_unless, p_msg_bytes,
}
use replication_protos.Pb.InStep.{IsRequest, batch_bytes}
use replication_protos.Pb.Reply.{IsUninit, packet, reply_text, sent_ack}
use replication_protos.Pb.Follower.{Handled, req_handler_prp-InStep}
use replication_protos.Pb.Unsigned.{taken_text, taken_code, req_handler_prp-unsigned}
use replication_protos.Pb.Run.{new_context, send_loop}
use replication_protos.Outcome.{ok}
use replication_protos.Batch
use replication_protos.Batch.Contents.{init-IsValid}
use replication_protos.Pb.Requests.{HasHashes, requests}
use replication_protos.Pb.Leader.{IsHolding, signed}
use replication_protos.Pb.Exchange.{Agrees, send_loop-req_handler_prp}

abbrev ack : AckMsg
ack = record { ack = 1 ∷ []; output = zeros 16; cmt = 3; sender = 2; state = zeros 32 }

f_get-memcpy_ack_into_buffer_example :
    (b : Bytes) × (memcpy_ack_into_buffer ack (zeros 60) ≡ some b)
    × (f_get_ack_val b ≡ some (not (decode_le (1 ∷ []) == 0)))
    × (f_get_cmt b ≡ f_get_cmt (zeros 60))
    × (f_get_sender b ≡ f_get_sender (zeros 60))
f_get-memcpy_ack_into_buffer_example =
    f_get-memcpy_ack_into_buffer ack refl (length-zeros 16) (zeros 60)
      (omega (arith, length-zeros 60))

-- Request number `n`.
abbrev numbered : ℕ → PMsg
numbered n = record {
  cmd = zeros 16;
  output = encode_le 4 n ++ zeros 12;
  meta = record { cnt = n; prev_h = zeros 32; f1_prev = zeros 32; f2_prev = zeros 32 };
}

first-IsRequest : IsRequest (numbered 0)
unfolding encode_le
first-IsRequest = (
  record {
    cmd_fits = length-zeros 16;
    output_fits = refl;
    prev_h_fits = length-zeros 32;
    f1_prev_fits = length-zeros 32;
    f2_prev_fits = length-zeros 32;
  },
  omega arith,
)

second-IsRequest : IsRequest (numbered 1)
unfolding encode_le
second-IsRequest = (
  record {
    cmd_fits = length-zeros 16;
    output_fits = refl;
    prev_h_fits = length-zeros 32;
    f1_prev_fits = length-zeros 32;
    f2_prev_fits = length-zeros 32;
  },
  omega arith,
)

ack-IsUninit : IsUninit ack (zeros 92) (zeros 60)
ack-IsUninit = record {
  output_fits = length-zeros 16;
  stale_size = length-zeros 60;
  room = zeros 32;
  room_size = length-zeros 32;
  more = [];
  resp_holds = refl;
}

abbrev fresh : AppContext
fresh = new_context 1 0

idx_small : fresh.metadata.cmt_idx < 4294967296
unfolding new_context
idx_small = omega arith

cnt_small : fresh.leader_exp_cnt < 4294967296
unfolding new_context
cnt_small = omega arith

req_handler_prp-InStep_example :
    Handled sum_code sum_code_size native
      (batch_bytes (numbered 0 ∷ numbered 1 ∷ []) ++ zeros 32)
      (zeros 60)
      (numbered 0 ∷ numbered 1 ∷ [])
      ack
      (zeros 92)
      fresh
      (emit_unless
        (same_bytes (sum_code hmac_key (batch_bytes (numbered 0 ∷ numbered 1 ∷ []))) (zeros 32))
        bad_mac
        fresh)
req_handler_prp-InStep_example =
    req_handler_prp-InStep sum_code sum_code_size native (numbered 0 ∷ numbered 1 ∷ []) (zeros 32)
      (zeros 60) ack (zeros 92) fresh (first-IsRequest, (second-IsRequest, tt)) (omega arith)
      (length-zeros 32) ack-IsUninit idx_small cnt_small

req_handler_prp-unsigned_example :
    Handled sum_code sum_code_size native
      (batch_bytes (numbered 0 ∷ []) ++ p_msg_bytes (numbered 1))
      (zeros 60)
      (numbered 0 ∷ [])
      ack
      (zeros 92)
      fresh
      (emit_unless
        (same_bytes
          (sum_code hmac_key (
            taken_text sum_code sum_code_size native
              (numbered 0 ∷ [])
              (numbered 1)
              (first-IsRequest, tt)
              second-IsRequest))
          (taken_code sum_code sum_code_size native
            (numbered 0 ∷ [])
            (numbered 1)
            (first-IsRequest, tt)
            second-IsRequest))
        bad_mac
        (emit (report bad_size) fresh))
req_handler_prp-unsigned_example =
    req_handler_prp-unsigned sum_code sum_code_size native (numbered 0 ∷ []) (numbered 1)
      (first-IsRequest, tt) second-IsRequest (zeros 60) ack (zeros 92) fresh (omega arith)
      ack-IsUninit idx_small cnt_small

abbrev first_leader : AppContext
first_leader = record (new_context 0 0) {
  metadata = record (new_context 0 0).metadata { followers = 1 ∷ 2 ∷ [] };
  connections = (1, 7) ∷ (2, 8) ∷ [];
}

holds_none : IsHolding first_leader.batcher []
unfolding new_context Batch.init
holds_none = record {
  valid = init-IsValid batch_count p_msg_size (omega arith);
  held = refl;
  count = refl;
}

has_hashes : HasHashes first_leader.metadata
unfolding new_context
has_hashes = (length-zeros 32, length-zeros 32)

agreed : Agrees 0 first_leader.metadata fresh
unfolding new_context other_state
agreed = record { next = refl; mine = refl; other = refl; small = omega arith }

send_loop-req_handler_prp_example :
    (l : AppContext) × (f' : AppContext) × (send_loop sum_code native 17 0 first_leader []
      ≡ ok (l, []))
    × (l.trace
        ≡ first_leader.trace
          ++ to_each req_propose
              (λ dest. signed sum_code sum_code_size native (requests 16 0 first_leader.metadata))
              92
              (route_of first_leader.connections)
              first_leader.metadata.followers)
    × IsHolding l.batcher (request_msg 16 first_leader.metadata ∷ [])
    × (req_handler_prp sum_code native
          (signed sum_code sum_code_size native (requests 16 0 first_leader.metadata))
          ack
          (zeros 92)
          fresh
        ≡ ok (
            emit
              (reply (
                packet sum_code sum_code_size native (
                  reply_text
                    (sent_ack ((fresh.metadata.cmt_idx + 16) % 4294967296) fresh.node_id ack)
                    (zeros 60))))
              f'))
    × (f'.metadata.cmt_idx ≡ (fresh.metadata.cmt_idx + 16) % 4294967296)
    × (f'.leader_exp_cnt ≡ 16)
    × (f'.trace ≡ fresh.trace)
send_loop-req_handler_prp_example =
    send_loop-req_handler_prp sum_code sum_code_size native 0 first_leader fresh ack (zeros 92)
      (zeros 60) holds_none has_hashes agreed ack-IsUninit
