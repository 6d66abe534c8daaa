-- ===== src/Chain/Tests.antt =====
-- Runs of cr/main.cc and cr/msg.h at concrete inputs.
use replication_protos.Prelude.{
  ℕ, ◌+◌, ◌%◌, ◌<◌, ◌≡◌, refl, none, some, List, [], ◌∷◌, ◌++◌, arith, zeros, length, u64_mod,
}
use replication_protos.Rpc.{Effect, request, ack, session_of, touch}
use replication_protos.Chain.Msg.{cmt_msg_bytes, zero_header, batch_count, Indexes, parse_indexes}
use replication_protos.Chain.Parse.{stream, parse_indexes_total, length-stream}
use replication_protos.Chain.Node.{
  AppContext, Event, Diagnostic, completed, head, middle, tail, req_commit, resp_size,
  req_handler_fw,
}
use replication_protos.Chain.Run.{dispatch_all, head_func, new_context}
use replication_protos.Chain.Head.{Delivered, head_func-Delivered}
use replication_protos.Chain.Relay.{req_handler_fw_tail, handler_fw_short}
use replication_protos.Chain.Pipeline.{
  arriving, batches, passed_on, commits, acks, dispatch_all-arriving,
}

-- Twenty requests, one full batch and four more; one response arrives in the second round.
abbrev some_rounds : List (List Event)
some_rounds = [] ∷ (completed ∷ []) ∷ []

head_func-Delivered_example :
    (d : AppContext) × (head_func 20 7 (new_context head 1) some_rounds ≡ some d) × Delivered 20 d
head_func-Delivered_example = head_func-Delivered 20 7 1 some_rounds (omega arith)

parse_indexes_total_example : (r : Indexes) × (parse_indexes (zeros 1024) ≡ some r)
parse_indexes_total_example = parse_indexes_total (zeros 1024) (omega arith)

middle_node : (new_context middle 1).node_id ≡ middle
unfolding new_context
middle_node = refl

new_tail_node : (new_context tail 1).node_id ≡ tail
unfolding new_context
new_tail_node = refl

tail_node : (new_context tail 2).node_id ≡ tail
unfolding new_context
tail_node = refl

abbrev tail_context : AppContext
tail_context = new_context tail 2

abbrev middle_context : AppContext
middle_context = new_context middle 1

req_handler_fw_tail_example :
    req_handler_fw (stream head middle 16 batch_count) tail_context
    ≡ some (record tail_context {
      fw_count = (tail_context.fw_count + 1) % u64_mod;
      connections = touch head tail_context.connections;
      trace =
          tail_context.trace
          ++ (ack resp_size
              ∷ request
                  (session_of head tail_context.connections)
                  req_commit
                  (cmt_msg_bytes
                    (record { hdr = zero_header; s_cmt_idx = 16; e_cmt_idx = 16 + 15 }))
                  resp_size
              ∷ []);
    })
req_handler_fw_tail_example =
    req_handler_fw_tail head middle 16 tail_context tail_node (omega arith)

head_node : (new_context head 1).node_id ≡ head
unfolding new_context
head_node = refl

no_fw : (id : ℕ) → (new_context id 1).fw_count ≡ 0
unfolding new_context
no_fw id = refl

no_cmt : (id : ℕ) → (new_context id 1).cmt_count ≡ 0
unfolding new_context
no_cmt id = refl

-- The three nodes, with the sessions that the middle and the tail send over.
abbrev head_context : AppContext
head_context = new_context head 1

abbrev linked_middle : AppContext
linked_middle = record middle_context { connections = (tail, 5) ∷ [] }

abbrev linked_tail : AppContext
linked_tail = record (new_context tail 1) { connections = (head, 6) ∷ [] }

-- Two batches, from the indexes 0 and 16 on.
abbrev two_batches : List ℕ
two_batches = 0 ∷ 16 ∷ []

dispatch_all-arriving_example :
    (m' : AppContext) × (t' : AppContext) × (h' : AppContext) × (ms : List (Effect Diagnostic))
    × (ts : List (Effect Diagnostic)) × (dispatch_all
          (batches head middle two_batches)
          linked_middle
        ≡ some m')
    × (m'.trace ≡ linked_middle.trace ++ ms)
    × (ms ≡ passed_on (session_of tail linked_middle.connections) head middle two_batches)
    × (dispatch_all (arriving ms) linked_tail ≡ some t')
    × (t'.trace ≡ linked_tail.trace ++ ts)
    × (ts ≡ commits (session_of head linked_tail.connections) two_batches)
    × (dispatch_all (arriving ts) head_context ≡ some h')
    × (h'.trace ≡ head_context.trace ++ acks two_batches)
    × (m'.fw_count ≡ linked_middle.fw_count + 2)
    × (t'.fw_count ≡ linked_tail.fw_count + 2)
    × (h'.cmt_count ≡ head_context.cmt_count + 2)
dispatch_all-arriving_example =
    dispatch_all-arriving head middle two_batches linked_middle linked_tail head_context middle_node
      new_tail_node head_node (omega arith, (omega arith, tt)) (omega (arith, no_fw middle))
      (omega (arith, no_fw tail)) (omega (arith, no_cmt head))

handler_fw_short_example : req_handler_fw (stream head middle 16 4) tail_context ≡ none
handler_fw_short_example = handler_fw_short (stream head middle 16 4) tail_context tail_node short
  where
    short : length (stream head middle 16 4) < 976
    short = omega (arith, length-stream head middle 16 4)
