-- ===== src/Rf/Commits.antt =====
-- The commits that the leader of rf/main.cc sends while responses arrive.
use replication_protos.Prelude.{
  ℕ, ◌+◌, ◌*◌, ◌%◌, ◌≡◌, refl, ap, sym, ◌∙◌, Bool, true, false, Bool-cases, inl, inr, some, List,
  [], ◌∷◌, ◌++◌, append-nil, append_assoc, arith, if◌then◌else◌, Bytes, count, u64_mod,
}
use replication_protos.Rpc.{Effect, request, to_each, route_of, route_of-touch, session_of}
use replication_protos.Chain.Msg.{msg_bytes}
use replication_protos.Rf.Acks.{Metadata, update_prp_acks}
use replication_protos.Rf.Node.{
  AppContext, Event, prp_response, req_commit, resp_size, broadcast, broadcast_msg, send_cmt,
  e_idx_of, cont_func_prp, send, emit,
}
use replication_protos.Rf.Run.{dispatch, dispatch_all}
use replication_protos.Rf.Quorum.{respond, pending, count-respond-pending}

-- The commits of the indexes `ys`, each to all followers.
abbrev pub commits : ℕ → (ℕ → ℕ) → List ℕ → List ℕ → List (Effect (ℕ × ℕ))
commits node route followers [] = []
commits node route followers (y ∷ ys) =
    to_each req_commit (λ dest. msg_bytes (broadcast_msg node y)) resp_size route followers
    ++ commits node route followers ys

-- The commit of an index, where it is decided.
abbrev decided : Bool → ℕ → ℕ → (ℕ → ℕ) → List ℕ → List (Effect (ℕ × ℕ))
decided t x node route followers =
    if t
    then to_each req_commit (λ dest. msg_bytes (broadcast_msg node x)) resp_size route followers
    else []

-- What a context keeps, and what it has sent in addition.
record Sent (c d : AppContext) (more : List (Effect (ℕ × ℕ))) : Type 0 where
  node : d.node_id ≡ c.node_id
  data_kept : d.metadata ≡ c.metadata
  routes_kept : route_of d.connections ≡ route_of c.connections
  trace_more : d.trace ≡ c.trace ++ more

broadcast-Sent :
    (type : ℕ) (body : Bytes) (resp : ℕ) (dests : List ℕ) (c : AppContext)
    → Sent c
        (broadcast type body resp dests c)
        (to_each type (λ dest. body) resp (route_of c.connections) dests)
unfolding broadcast send emit
broadcast-Sent type body resp [] c = record {
  node = refl;
  data_kept = refl;
  routes_kept = refl;
  trace_more = sym (append-nil c.trace);
}
broadcast-Sent type body resp (dest ∷ dests) c =
    let s = broadcast-Sent type body resp dests (send type body resp dest c) in
    let first : Effect (ℕ × ℕ) = request (session_of dest c.connections) type body resp in
    let same = route_of-touch dest c.connections in
    record {
      node = s.node;
      data_kept = s.data_kept;
      routes_kept = s.routes_kept ∙ same;
      trace_more =
          s.trace_more
          ∙ ap (λ route. (c.trace ++ (first ∷ [])) ++ to_each type (λ d. body) resp route dests)
              same
          ∙ append_assoc c.trace (first ∷ [])
              (to_each type (λ d. body) resp (route_of c.connections) dests);
    }

-- One response.
respond_one :
    (b : Bytes) (x : ℕ) (c : AppContext)
    → e_idx_of b ≡ some x
    → (d : AppContext) × (cont_func_prp b c ≡ some d)
      × (d.node_id ≡ c.node_id)
      × (d.metadata ≡ (update_prp_acks x c.metadata).1)
      × (route_of d.connections ≡ route_of c.connections)
      × (d.trace
          ≡ c.trace
            ++ decided
                (update_prp_acks x c.metadata).0
                x
                c.node_id
                (route_of c.connections)
                (update_prp_acks x c.metadata).1.followers)
unfolding cont_func_prp send_cmt
respond_one b x c e = elim (Bool-cases (update_prp_acks x c.metadata).0) [
  | inl t ↦
      let s =
        broadcast-Sent req_commit (msg_bytes (broadcast_msg c.node_id x)) resp_size
          (update_prp_acks x c.metadata).1.followers counted in
      (
        broadcast req_commit (msg_bytes (broadcast_msg c.node_id x)) resp_size
            (update_prp_acks x c.metadata).1.followers counted,
        rw (e, t),
        s.node,
        s.data_kept,
        s.routes_kept,
        rw t s.trace_more,
      )
  | inr f ↦ (counted, rw (e, f), refl, refl, refl, rw f (sym (append-nil c.trace)))
]
  where
    counted : AppContext
    counted = record c {
      metadata = (update_prp_acks x c.metadata).1;
      prp_acked = (c.prp_acked + 1) % u64_mod;
    }

update_prp_acks-followers : (x : ℕ) (m : Metadata) → (update_prp_acks x m).1.followers ≡ m.followers
unfolding update_prp_acks
update_prp_acks-followers x m = ground arith

commits-if :
    (t : Bool) (node : ℕ) (route : ℕ → ℕ) (followers : List ℕ) (x : ℕ) (ys : List ℕ)
    → decided t x node route followers ++ commits node route followers ys
      ≡ commits node route followers (if t then x ∷ ys else ys)
commits-if true node route followers x ys = refl
commits-if false node route followers x ys = refl

-- The responses `bs` carry the indexes `xs`.
abbrev pub Carries : List Bytes → List ℕ → Type 0
Carries [] [] = Unit
Carries [] (x ∷ xs) = ⊥
Carries (b ∷ bs) [] = ⊥
Carries (b ∷ bs) (x ∷ xs) = (e_idx_of b ≡ some x) × Carries bs xs

abbrev pub responses : List Bytes → List Event
responses [] = []
responses (b ∷ bs) = prp_response b ∷ responses bs

-- What the counting of acknowledgements decides is sent.
responses-respond :
    (bs : List Bytes) (xs : List ℕ) (c : AppContext)
    → Carries bs xs
    → (d : AppContext) × (dispatch_all (responses bs) c ≡ some d)
      × (d.metadata ≡ (respond xs c.metadata).1)
      × (d.trace
          ≡ c.trace
            ++ commits c.node_id
                (route_of c.connections)
                c.metadata.followers
                (respond xs c.metadata).0)
unfolding dispatch_all dispatch
responses-respond [] [] c h = (c, refl, refl, sym (append-nil c.trace))
responses-respond [] (x ∷ xs) c h = absurd h
responses-respond (b ∷ bs) [] c h = absurd h
responses-respond (b ∷ bs) (x ∷ xs) c h =
    let (d, run, node, moved, routes, sent) = respond_one b x c h.0 in
    let (f, rest, moved', sent') = responses-respond bs xs d h.1 in
    let t = (update_prp_acks x c.metadata).0 in
    let ys = (respond xs (update_prp_acks x c.metadata).1).0 in
    (
      f,
      rw run rest,
      moved' ∙ ap (λ m. (respond xs m).1) moved,
      sent'
          ∙ rw (sent, node, moved, routes, update_prp_acks-followers x c.metadata)
              (append_assoc c.trace
                  (decided t x c.node_id (route_of c.connections) c.metadata.followers)
                  (commits c.node_id (route_of c.connections) c.metadata.followers ys)
                ∙ ap (◌++◌ c.trace)
                    (commits-if t c.node_id (route_of c.connections) c.metadata.followers x ys)),
    )

-- The leader of rf/main.cc handles responses to proposals that carry given indexes without a fault,
-- and sends nothing but commits: each is one message with the leader's id and the committed index
-- to every follower, over the session of that follower. For every index, twice the number of its
-- commits, and one more if an acknowledgement of it is pending afterwards, is the number of its
-- responses, and one more if one was pending before: every second response commits.
pub dispatch_all-responses :
    (bs : List Bytes) (xs : List ℕ) (c : AppContext)
    → Carries bs xs
    → (d : AppContext) × (ys : List ℕ) × (dispatch_all (responses bs) c ≡ some d)
      × (d.trace ≡ c.trace ++ commits c.node_id (route_of c.connections) c.metadata.followers ys)
      × ((k : ℕ) → 2 * count k ys + pending k d.metadata ≡ count k xs + pending k c.metadata)
dispatch_all-responses bs xs c h =
    let (d, run, moved, sent) = responses-respond bs xs c h in
    (
      d,
      (respond xs c.metadata).0,
      run,
      sent,
      (λ k.
          ap (λ m. 2 * count k (respond xs c.metadata).0 + pending k m) moved
          ∙ count-respond-pending k xs c.metadata),
    )
