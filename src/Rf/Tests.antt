-- ===== src/Rf/Tests.antt =====
-- Runs of rf/main.cc at concrete inputs.
use replication_protos.Prelude.{
  ℕ, Bytes, List, [], arith, count, false, if◌then◌else◌, leb, refl, some, u64_mod, zeros, ◌%◌, ◌*◌,
  ◌++◌, ◌+◌, ◌-◌, ◌/◌, ◌∷◌, ◌≡◌,
}
use replication_protos.Rpc.{reply, route_of}
use replication_protos.Rf.Acks.{Metadata, has_ack}
use replication_protos.Rf.Node.{
  AppContext, leader, follower, cmt_msg_bytes, ack_msg, req_handler_prp,
}
use replication_protos.Rf.Run.{new_context, dispatch_all}
use replication_protos.Rf.Quorum.{respond, count-respond, pending, settle, noted, count-settle}
use replication_protos.Rf.Commits.{Carries, responses, commits, dispatch_all-responses}
use replication_protos.Rf.Follower.{e_idx_of-ack_msg, req_handler_prp_single}

-- A leader with two followers: nothing is pending but the commit of 15.
abbrev two_followers : Metadata
two_followers = record {
  leader = follower;
  cmt_idx = 0;
  prp_idx = 0;
  followers = 1 ∷ 2 ∷ [];
  prp_acks = [];
  cmt_acks = (15, 1) ∷ [];
}

none_pending : has_ack 15 two_followers.prp_acks ≡ false
unfolding has_ack
none_pending = refl

count-respond_example :
    count 15 (respond (15 ∷ 31 ∷ 15 ∷ []) two_followers).0 ≡ count 15 (15 ∷ 31 ∷ 15 ∷ []) / 2
count-respond_example = count-respond 15 (15 ∷ 31 ∷ 15 ∷ []) two_followers none_pending

-- One commit of 15 is noted: two more are answered true, and 15 is no proposal any more.
count-settle_example :
    (count 15 (settle (15 ∷ 31 ∷ 15 ∷ []) two_followers).0
      ≡ noted 15 two_followers + count 15 (15 ∷ 31 ∷ 15 ∷ []) - 1)
    × (has_ack 15 (settle (15 ∷ 31 ∷ 15 ∷ []) two_followers).1.cmt_acks
        ≡ leb 1 (noted 15 two_followers + count 15 (15 ∷ 31 ∷ 15 ∷ [])))
    × (has_ack 15 (settle (15 ∷ 31 ∷ 15 ∷ []) two_followers).1.prp_acks ≡ (
        if leb 2 (noted 15 two_followers + count 15 (15 ∷ 31 ∷ 15 ∷ []))
        then false
        else has_ack 15 two_followers.prp_acks))
count-settle_example = count-settle 15 (15 ∷ 31 ∷ 15 ∷ []) two_followers

abbrev leader_context : AppContext
leader_context = record (new_context leader 0) {
  metadata = two_followers;
  connections = (1, 7) ∷ (2, 8) ∷ [];
}

-- The responses of two followers to the same batch.
abbrev two_responses : List Bytes
two_responses = cmt_msg_bytes (ack_msg 1 15) ∷ cmt_msg_bytes (ack_msg 2 15) ∷ []

two_responses-Carries : Carries two_responses (15 ∷ 15 ∷ [])
two_responses-Carries = (e_idx_of-ack_msg 1 15, (e_idx_of-ack_msg 2 15, tt))

dispatch_all-responses_example :
    (d : AppContext) × (ys : List ℕ) × (dispatch_all (responses two_responses) leader_context
      ≡ some d)
    × (d.trace
        ≡ leader_context.trace
          ++ commits leader_context.node_id
              (route_of leader_context.connections)
              leader_context.metadata.followers
              ys)
    × ((k : ℕ)
        → 2 * count k ys + pending k d.metadata
          ≡ count k (15 ∷ 15 ∷ []) + pending k leader_context.metadata)
dispatch_all-responses_example =
    dispatch_all-responses two_responses (15 ∷ 15 ∷ []) leader_context two_responses-Carries

abbrev follower_context : AppContext
follower_context = new_context 2 0

req_handler_prp_single_example :
    req_handler_prp (zeros 64) follower_context
    ≡ some (record follower_context {
      prp_count = (follower_context.prp_count + 1) % u64_mod;
      trace =
          follower_context.trace
          ++ (reply (cmt_msg_bytes (ack_msg follower_context.node_id (u64_mod - 1))) ∷ []);
    })
req_handler_prp_single_example =
    req_handler_prp_single (zeros 64) follower_context (omega arith) (omega arith)
