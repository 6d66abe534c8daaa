-- ===== src/Alc/Tests.antt =====
-- Runs of alc/main.cc at concrete inputs.
use replication_protos.Prelude.{
  Bool-cases, Bytes, List, [], ap, arith, count, decode_le, encode_le, if◌then◌else◌, inl, inr,
  load, refl, sign_extend, some, some_injective, zeros, ℕ, ◌*◌, ◌++◌, ◌+◌, ◌<◌, ◌==◌, ◌↔◌, ◌∷◌, ◌≡◌,
  ◌⊎◌,
}
use replication_protos.Rpc.{requests, outgoing, to_each, route_of}
use replication_protos.Chain.Msg.{msg_bytes, header_bytes}
use replication_protos.Alc.Rounds.{new_round, next_key}
use replication_protos.Alc.Node.{committed, cmt_response, seq_idx_of, broadcast_msg}
use replication_protos.Alc.Completion.{Has, dispatch_all-BringAll}
use replication_protos.Chain.Msg.{batch_count, msg_size}
use replication_protos.Alc.Rounds.{Metadata, find, add_recv_req, tot_acks, commit_completed_rds}
use replication_protos.Alc.Commit.{IsDue, Commits, commit_completed_rds-Commits}
use replication_protos.Alc.Node.{
  AppContext, resp_size, Event, batch_sent, send_response, cmt_msg_bytes, ack_msg,
  get_consensus_round, init, req_send, send_req, flash_batcher,
}
use replication_protos.Alc.Run.{new_context, dispatch_all}
use replication_protos.Alc.Quorum.{acks, IsCounted}
use replication_protos.Alc.Filing.{Filed, file_req}
use replication_protos.Alc.Once.{CommitsOnce, commits, dispatch_all-Acknowledge}
use replication_protos.Alc.Batching.{IsReady}
use replication_protos.Alc.Broadcasting.{IsBroadcast, batch_body, cns_rd_of-ack_msg}
use replication_protos.Alc.Sending.{IsBuffered, IsNextRound, send_req_lem}
use replication_protos.Alc.Flash.{flash_batcher_lem, flash_batcher-dispatch_all}

-- Nothing is copied to the end of a request.
abbrev no_tail : ℕ → ℕ → Bytes
no_tail rd dest = zeros 8

abbrev no_rounds : Metadata
no_rounds = record (new_context 0 0).metadata { followers = 1 ∷ 2 ∷ [] }

no_rounds-IsCounted : IsCounted no_rounds
unfolding find new_context
no_rounds-IsCounted k r e = cc

-- Donna with her own batch of round 0.
abbrev round_0 : AppContext
round_0 = record (new_context 0 0) {
  connections = (1, 7) ∷ (2, 8) ∷ [];
  metadata = add_recv_req 0 [] 0 no_rounds;
}

round_0-Filed : Filed 0 no_rounds (add_recv_req 0 [] 0 no_rounds)
round_0-Filed = file_req 0 0 [] no_rounds (omega arith) no_rounds-IsCounted

abbrev batch_0 : Bytes
batch_0 = zeros 72

batch_0-round : get_consensus_round batch_0 ≡ some 0
unfolding get_consensus_round load decode_le
batch_0-round = refl

abbrev four_events : List Event
four_events =
    batch_sent batch_0
    ∷ send_response (cmt_msg_bytes (ack_msg 1 0))
    ∷ batch_sent batch_0
    ∷ send_response (cmt_msg_bytes (ack_msg 2 0))
    ∷ []

abbrev four_rounds : List ℕ
four_rounds = 0 ∷ 0 ∷ 0 ∷ 0 ∷ []

no_acks : (k : ℕ) → acks k no_rounds ≡ 0
unfolding find new_context
no_acks k = refl

dispatch_all-Acknowledge_example : CommitsOnce four_events four_rounds round_0
dispatch_all-Acknowledge_example =
    dispatch_all-Acknowledge four_events four_rounds round_0 round_0-Filed.counted
      (
        (batch_0-round, omega arith),
        (
          (cns_rd_of-ack_msg 1 0 (omega arith), omega arith, round_0-Filed.known_there),
          (
            (batch_0-round, omega arith),
            ((cns_rd_of-ack_msg 2 0 (omega arith), omega arith, round_0-Filed.known_there), tt),
          ),
        ),
      )
      (λ k. ground (arith, round_0-Filed.same_acks k, no_acks k))

-- A batcher with 16 messages.
abbrev full : AppContext
full = record (new_context 0 0) {
  connections = (1, 7) ∷ (2, 8) ∷ [];
  batcher = record init { cur_idx = 16 };
}

full-IsReady : IsReady full.batcher
unfolding load encode_le
full-IsReady = record { size = refl; within = omega arith; head = refl }

full-IsCounted : IsCounted full.metadata
unfolding find new_context
full-IsCounted k r e = cc

send_req_lem_example :
    (d : AppContext) × (send_req no_tail 16 (1 ∷ 2 ∷ []) full ≡ some d)
    × IsReady d.batcher
    × (((full.batcher.cur_idx < batch_count) × IsBuffered 16 full d)
        ⊎ ((full.batcher.cur_idx ≡ batch_count) × IsNextRound no_tail 16 (1 ∷ 2 ∷ []) full d))
send_req_lem_example =
    send_req_lem no_tail 16 (1 ∷ 2 ∷ []) full full-IsReady full-IsCounted (omega arith)

commit_completed_rds-Commits_example :
    ((m' : Metadata) × (commit_completed_rds tot_acks no_rounds ≡ some m'))
    × ((m' : Metadata)
        → (commit_completed_rds tot_acks no_rounds ≡ some m')
          ↔ (Commits tot_acks no_rounds m' × ¬ IsDue tot_acks m'))
commit_completed_rds-Commits_example = commit_completed_rds-Commits tot_acks no_rounds

-- A last batch of three messages.
abbrev three_left : AppContext
three_left = record (new_context 0 0) {
  connections = (1, 7) ∷ (2, 8) ∷ [];
  batcher = record init { cur_idx = 3 };
  metadata = no_rounds;
}

three_left-IsReady : IsReady three_left.batcher
unfolding load encode_le
three_left-IsReady = record { size = refl; within = omega arith; head = refl }

abbrev left_round : ℕ
left_round = three_left.batcher.count

left_acks : (k : ℕ) → acks k three_left.metadata ≡ 0
left_acks k = no_acks k

-- It is sent when no acknowledgement of its round is there yet.
few_acks : acks left_round three_left.metadata + 1 < tot_acks
few_acks = omega (arith, left_acks left_round)

sent_last :
    (d : AppContext) × (flash_batcher no_tail (1 ∷ 2 ∷ []) three_left ≡ some d)
    × IsBroadcast
        (batch_body no_tail (msg_size * three_left.batcher.cur_idx) three_left.batcher)
        resp_size
        (1 ∷ 2 ∷ [])
        three_left
        d
sent_last =
    let (d, run, done, _, _) =
      flash_batcher_lem no_tail (1 ∷ 2 ∷ []) three_left three_left-IsReady (omega arith)
        no_rounds-IsCounted (omega arith) few_acks in
    (d, run, done)

abbrev three_events : List Event
three_events =
    batch_sent batch_0 ∷ batch_sent batch_0 ∷ send_response (cmt_msg_bytes (ack_msg 1 0)) ∷ []

flash_batcher-dispatch_all_example :
    (f : AppContext) × (ys : List ℕ) × (dispatch_all three_events sent_last.0 ≡ some f)
    × (outgoing f.trace
        ≡ outgoing three_left.trace
          ++ (to_each req_send
                (batch_body no_tail (msg_size * three_left.batcher.cur_idx) three_left.batcher)
                resp_size
                (route_of three_left.connections)
                (1 ∷ 2 ∷ [])
              ++ commits three_left.node_id
                  (route_of three_left.connections)
                  three_left.metadata.followers
                  ys))
    × (count three_left.batcher.count ys ≡ 1)
flash_batcher-dispatch_all_example =
    flash_batcher-dispatch_all no_tail (1 ∷ 2 ∷ []) three_events (0 ∷ 0 ∷ 0 ∷ []) three_left
      sent_last.0 three_left-IsReady (omega arith) no_rounds-IsCounted (omega arith) few_acks
      sent_last.1
      ((batch_0-round, omega arith), ((batch_0-round, omega arith), (sent_last.2.answered 1, tt)))
      (λ k. ground (arith, left_acks k)) (omega (arith, left_acks left_round))

-- Round 0 is the current one, and no commit of it is there.
abbrev one_round : AppContext
one_round = record round_0 { metadata = record no_rounds { proto_meta = (0, new_round 0 []) ∷ [] } }

-- Of the other rounds none is awaited.
abbrev at_first : ℕ → ℕ
at_first k = if 0 == k then 0 else tot_acks

one_round-Has : (k : ℕ) → Has k one_round.metadata (at_first k)
unfolding find
one_round-Has k = elim (Bool-cases (0 == k)) [
  | inl t ↦ inl (new_round 0 [], rw t refl, rw t refl)
  | inr t ↦ inr (rw t refl)
]

one_round_idle : ¬ IsDue tot_acks one_round.metadata
unfolding find next_key sign_extend new_context
one_round_idle d = absurd (omega (arith, ap (λ r. r.nb_cmts) (some_injective d.known), d.complete))

commit_0 : seq_idx_of (msg_bytes (broadcast_msg 1 0)) ≡ some 0
unfolding seq_idx_of load msg_bytes header_bytes broadcast_msg encode_le decode_le
commit_0 = refl

abbrev four_commits : List Event
four_commits =
    committed (msg_bytes (broadcast_msg 1 0))
    ∷ cmt_response (cmt_msg_bytes (ack_msg 1 0))
    ∷ committed (msg_bytes (broadcast_msg 1 0))
    ∷ cmt_response (cmt_msg_bytes (ack_msg 2 0))
    ∷ []

dispatch_all-BringAll_example :
    (d : AppContext) × (dispatch_all four_commits one_round ≡ some d)
    × ((k : ℕ) → Has k d.metadata (at_first k + count k four_rounds))
    × ¬ IsDue tot_acks d.metadata
    × (requests d.trace ≡ requests one_round.trace)
dispatch_all-BringAll_example =
    dispatch_all-BringAll four_commits four_rounds one_round at_first
      (
        commit_0,
        (
          (cns_rd_of-ack_msg 1 0 (omega arith), omega arith),
          (commit_0, ((cns_rd_of-ack_msg 2 0 (omega arith), omega arith), tt)),
        ),
      )
      one_round-Has (λ k. ground arith) one_round_idle
