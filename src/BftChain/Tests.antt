-- ===== src/BftChain/Tests.antt =====
-- Runs of bft-cr/main.cc and bft-cr/proto.h at concrete inputs.
use replication_protos.Prelude.{
  ◌+◌, ◌-◌, ◌%◌, inl, ◌≡◌, refl, true, some, [], ◌∷◌, ◌++◌, arith, Bytes, zeros, load, length, take,
  encode_le, decode_le, u32_mod, u64_mod, minus_one, sign_extend,
}
use replication_protos.Outcome.{ok, fault}
use replication_protos.Rpc.{request, ack, session_of, touch}
use replication_protos.Attest.{native, sgx, hmac_key}
use replication_protos.Attest.Signed.{signed_bytes, verify-signed}
use replication_protos.Attest.Tests.{sum_code, sum_code_size, forged, forged_code}
use replication_protos.Chain.Msg.{msg_size, header_size, zero_header, cmt_msg_bytes, seq_of}
use replication_protos.BftChain.Proto.{State, Verdict, verify_execution_tail, tail, middle, head}
use replication_protos.BftChain.Checks.{
  action, bump, check_leader_sound, verify_execution_tail-append, verify_execution_tail_forged,
}
use replication_protos.BftChain.Middle.{
  IsAction, check_leader_IsAction, handler_relays, handler_forged, relayed,
}
use replication_protos.BftChain.Tail.{handler_commits}
use replication_protos.BftChain.Node.{
  AppContext, req_handler_fw, req_forward, req_commit, resp_size,
}
use replication_protos.BftChain.Run.{new_context}

-- The first message of the head: a request of zeros, its output, the index 0, and two outputs.
abbrev first_action : Bytes
first_action = action (zeros 64) (zeros 64) (encode_le 4 0) (zeros 64 ++ zeros 64)

first_action_size : length first_action ≡ 260
unfolding encode_le
first_action_size = refl

abbrev start : State
start = record { cmt_idx = minus_one }

first_action-IsAction : IsAction first_action ((start.cmt_idx + 1) % u32_mod)
unfolding encode_le decode_le
first_action-IsAction = record {
  command = zeros 64;
  word = encode_le 4 0;
  rest = zeros 64 ++ zeros 64;
  shape = refl;
  command_size = refl;
  word_size = refl;
  index = refl;
}

abbrev verdict : Verdict
verdict = record { holds = true; st = bump start; printed = [] }

check_leader_sound_example :
    (verdict.st ≡ bump start)
    × (verdict.printed ≡ [])
    × (load 0 msg_size first_action ≡ load msg_size msg_size first_action)
    × (word : Bytes) × (load (msg_size + msg_size) 4 first_action ≡ some word)
    × (decode_le word ≡ verdict.st.cmt_idx)
check_leader_sound_example =
    check_leader_sound first_action start verdict
      (check_leader_IsAction first_action start first_action-IsAction) refl

abbrev middle_context : AppContext
middle_context = new_context middle 1

abbrev tail_context : AppContext
tail_context = new_context tail 2

middle_node : middle_context.node_id ≡ middle
unfolding new_context
middle_node = refl

tail_node : tail_context.node_id ≡ tail
unfolding new_context
tail_node = refl

middle_action : IsAction first_action ((middle_context.st.cmt_idx + 1) % u32_mod)
unfolding new_context
middle_action = first_action-IsAction

tail_action : IsAction first_action ((tail_context.st.cmt_idx + 1) % u32_mod)
unfolding new_context
tail_action = first_action-IsAction

verify_execution_tail-append_example :
    verify_execution_tail sum_code native
      (signed_bytes sum_code first_action ++ zeros 68)
      tail
      start
    ≡ verify_execution_tail sum_code native
        (signed_bytes sum_code first_action ++ (1 ∷ []))
        tail
        start
verify_execution_tail-append_example =
    verify_execution_tail-append sum_code native (signed_bytes sum_code first_action) (zeros 68)
      (1 ∷ []) start
      (verify-signed sum_code sum_code_size native first_action (omega (arith, first_action_size)))

verify_execution_tail_forged_example :
    verify_execution_tail sum_code native forged tail start ≡ fault
verify_execution_tail_forged_example =
    verify_execution_tail_forged sum_code native forged start forged_code

handler_forged_example : req_handler_fw sum_code native forged middle_context ≡ fault
handler_forged_example =
    handler_forged sum_code sum_code_size native forged middle_context (inl middle_node) forged_code

handler_relays_example :
    req_handler_fw sum_code sgx (signed_bytes sum_code first_action) middle_context
    ≡ ok (record middle_context {
      fw_count = (middle_context.fw_count + 1) % u64_mod;
      st = bump middle_context.st;
      connections = touch tail middle_context.connections;
      trace =
          middle_context.trace
          ++ (ack resp_size
              ∷ request
                  (session_of tail middle_context.connections)
                  req_forward
                  (relayed sum_code sum_code_size sgx
                    (signed_bytes sum_code first_action)
                    first_action)
                  resp_size
              ∷ []);
    })
handler_relays_example =
    handler_relays sum_code sum_code_size sgx first_action middle_context middle_node
      (omega (arith, first_action_size)) middle_action

command_first : tail_action.rest ≡ tail_action.command ++ zeros 64
unfolding first_action-IsAction tail_action
command_first = refl

abbrev inner : Bytes
inner = signed_bytes sum_code first_action ++ take (msg_size + 4) first_action

handler_commits_example :
    req_handler_fw sum_code sgx (signed_bytes sum_code inner) tail_context
    ≡ ok (record tail_context {
      fw_count = (tail_context.fw_count + 1) % u64_mod;
      st = bump tail_context.st;
      connections = touch head tail_context.connections;
      trace =
          tail_context.trace
          ++ (ack resp_size
              ∷ request
                  (session_of head tail_context.connections)
                  req_commit
                  (cmt_msg_bytes (record {
                    hdr = zero_header;
                    s_cmt_idx = sign_extend (seq_of (take header_size (sum_code hmac_key inner)));
                    e_cmt_idx = u64_mod - 1;
                  }))
                  resp_size
              ∷ []);
    })
handler_commits_example =
    handler_commits sum_code sum_code_size sgx first_action tail_context tail_action (zeros 64)
      command_first tail_node (omega (arith, first_action_size))
