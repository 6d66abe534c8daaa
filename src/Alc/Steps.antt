-- ===== src/Alc/Steps.antt =====
-- alc/main.cc: one batch or one response to a batch, which acknowledges a round.
use replication_protos.Prelude.{
  ℕ, ◌+◌, ◌%◌, ◌^◌, ◌<◌, ◌≡◌, refl, ap, sym, subst, ◌∙◌, Bool, true, false, some, List, [], ◌∷◌,
  ◌++◌, append-nil, append_assoc, arith, ◌==◌, if◌then◌else◌, Bytes, u32_mod, u64_mod,
}
use replication_protos.Rpc.{
  Effect, request, reply, outgoing, outgoing-append, outgoing-to_each, replies, replies-append,
  replies-to_each, to_each, route_of, route_of-touch, session_of,
}
use replication_protos.Batch.Contents.{deserialize_all}
use replication_protos.Chain.Msg.{msg_bytes}
use replication_protos.Alc.Rounds.{Metadata, tot_acks, add_recv_req, can_commit}
use replication_protos.Alc.Node.{
  AppContext, Event, batch_sent, committed, send_response, cmt_response, req_commit, resp_size,
  broadcast, broadcast_msg, send, send_cmt, cns_rd_of, try_commit, cont_func_send, ack_msg,
  cmt_msg_bytes, get_consensus_round, req_handler_send, emit,
}
use replication_protos.Alc.Run.{dispatch}
use replication_protos.Alc.Quorum.{acks, is_known, IsCounted, Noted, note, sign_extend_small}
use replication_protos.Alc.Filing.{file_req}

-- What a context keeps, and what it has sent in addition.
pub record Sent (c d : AppContext) (more : List (Effect (Unit {0}))) : Type 0 where
  pub node : d.node_id ≡ c.node_id
  pub rounds_kept : d.metadata ≡ c.metadata
  pub batch_kept : d.batcher ≡ c.batcher
  pub routes_kept : route_of d.connections ≡ route_of c.connections
  pub trace_more : d.trace ≡ c.trace ++ more

pub broadcast-Sent :
    (type : ℕ) (body : ℕ → Bytes) (resp : ℕ) (dests : List ℕ) (c : AppContext)
    → Sent c
        (broadcast type body resp dests c)
        (to_each type body resp (route_of c.connections) dests)
unfolding broadcast send emit
broadcast-Sent type body resp [] c = record {
  node = refl;
  rounds_kept = refl;
  batch_kept = refl;
  routes_kept = refl;
  trace_more = sym (append-nil c.trace);
}
broadcast-Sent type body resp (dest ∷ dests) c =
    let s = broadcast-Sent type body resp dests (send type (body dest) resp dest c) in
    let first : Effect (Unit {0}) = request (session_of dest c.connections) type (body dest) resp in
    let same = route_of-touch dest c.connections in
    record {
      node = s.node;
      rounds_kept = s.rounds_kept;
      batch_kept = s.batch_kept;
      routes_kept = s.routes_kept ∙ same;
      trace_more =
          s.trace_more
          ∙ ap (λ route. (c.trace ++ (first ∷ [])) ++ to_each type body resp route dests) same
          ∙ append_assoc c.trace (first ∷ [])
              (to_each type body resp (route_of c.connections) dests);
    }

-- The commit of a round, where it is decided.
abbrev pub decided : Bool → ℕ → ℕ → (ℕ → ℕ) → List ℕ → List (Effect (Unit {0}))
decided t x node route followers =
    if t
    then to_each req_commit (λ dest. msg_bytes (broadcast_msg node x)) resp_size route followers
    else []

outgoing-decided :
    (t : Bool) (x node : ℕ) (route : ℕ → ℕ) (followers : List ℕ)
    → outgoing (decided t x node route followers) ≡ decided t x node route followers
outgoing-decided true x node route followers =
    outgoing-to_each req_commit (λ dest. msg_bytes (broadcast_msg node x)) resp_size route followers
outgoing-decided false x node route followers = refl

replies-decided :
    (t : Bool) (x node : ℕ) (route : ℕ → ℕ) (followers : List ℕ)
    → replies (decided t x node route followers) ≡ []
replies-decided true x node route followers =
    replies-to_each (Unit {0}) req_commit (λ dest. msg_bytes (broadcast_msg node x)) resp_size route
      followers
replies-decided false x node route followers = refl

try_commit_lem :
    (x : ℕ) (t : Bool) (m : Metadata) (c : AppContext)
    → can_commit tot_acks x c.metadata ≡ some (t, m)
    → (d : AppContext) × (try_commit x c ≡ some d)
      × (d.node_id ≡ c.node_id)
      × (d.metadata ≡ m)
      × (route_of d.connections ≡ route_of c.connections)
      × (d.trace ≡ c.trace ++ decided t x c.node_id (route_of c.connections) m.followers)
unfolding try_commit send_cmt
try_commit_lem x true m c e =
    let c' : AppContext = record c { metadata = m } in
    let b = msg_bytes (broadcast_msg c.node_id x) in
    let s = broadcast-Sent req_commit (λ dest. b) resp_size m.followers c' in
    (
      broadcast req_commit (λ dest. b) resp_size m.followers c',
      rw e,
      s.node,
      s.rounds_kept,
      s.routes_kept,
      s.trace_more,
    )
try_commit_lem x false m c e =
    (record c { metadata = m }, rw e, refl, refl, refl, sym (append-nil c.trace))

-- The event acknowledges the round `x`: another node's batch of that round, or a response to
-- the own batch, whose round is known.
abbrev pub About : Metadata → Event → ℕ → Type 0
About m (batch_sent b) x = (get_consensus_round b ≡ some x) × (x < 2 ^ 31)
About m (send_response b) x = (cns_rd_of b ≡ some x) × (x < 2 ^ 31) × (is_known x m ≡ true)
About m (committed b) x = ⊥
About m (cmt_response b) x = ⊥

-- The response that the handler of an event about the round `x` fills.
abbrev pub answers : Event → ℕ → ℕ → List Bytes
answers (batch_sent b) node x = cmt_msg_bytes (ack_msg node x) ∷ []
answers (send_response b) node x = []
answers (committed b) node x = []
answers (cmt_response b) node x = []

-- One event that acknowledges the round `x`.
pub record Step (e : Event) (x : ℕ) (c d : AppContext) : Type 0 where
  pub node : d.node_id ≡ c.node_id
  pub counted : IsCounted d.metadata
  pub one_more : (k : ℕ) → acks k d.metadata ≡ acks k c.metadata + (if x == k then 1 else 0)
  pub kept : (k : ℕ) → is_known k c.metadata ≡ true → is_known k d.metadata ≡ true
  pub same_followers : d.metadata.followers ≡ c.metadata.followers
  pub routes_kept : route_of d.connections ≡ route_of c.connections
  pub sent :
      outgoing d.trace
      ≡ outgoing c.trace
        ++ decided
            ((acks x c.metadata + 1) == tot_acks)
            x
            c.node_id
            (route_of c.connections)
            c.metadata.followers
  pub answered : replies d.trace ≡ replies c.trace ++ answers e c.node_id x

-- The end of both handlers, after the acknowledgement is counted.
Noted-Step :
    (e : Event) (x : ℕ) (c c1 : AppContext) (m2 : Metadata)
    → IsCounted c1.metadata
    → c1.node_id ≡ c.node_id
    → ((k : ℕ) → acks k c1.metadata ≡ acks k c.metadata)
    → ((k : ℕ) → is_known k c.metadata ≡ true → is_known k c1.metadata ≡ true)
    → c1.metadata.followers ≡ c.metadata.followers
    → outgoing c1.trace ≡ outgoing c.trace
    → replies c1.trace ≡ replies c.trace ++ answers e c.node_id x
    → Noted x c1.metadata m2
    → (c2 : AppContext) → c2.node_id ≡ c1.node_id
    → c2.trace ≡ c1.trace
    → c2.connections ≡ c.connections
    → can_commit tot_acks x c2.metadata ≡ some (((acks x c1.metadata + 1) == tot_acks), m2)
    → (d : AppContext) × (try_commit x c2 ≡ some d) × Step e x c d
Noted-Step e x c c1 m2 counted node same known followers quiet filled n c2 node2 trace2 links run =
    let t = (acks x c1.metadata + 1) == tot_acks in
    let (d, end, node', moved, routes, sent) = try_commit_lem x t m2 c2 run in
    let more = decided t x c2.node_id (route_of c2.connections) m2.followers in
    (
      d,
      end,
      record {
        node = node' ∙ node2 ∙ node;
        counted = subst IsCounted (sym moved) n.counted;
        one_more = λ k.
            ap (acks k) moved ∙ n.one_more k ∙ ap (λ a. a + (if x == k then 1 else 0)) (same k);
        kept = λ k h. ap (is_known k) moved ∙ n.kept k ∙ known k h;
        same_followers = ap (λ m. m.followers) moved ∙ n.same_followers ∙ followers;
        routes_kept = routes ∙ ap route_of links;
        sent =
            ap outgoing sent
            ∙ outgoing-append c2.trace more
            ∙ ap (◌++◌ (outgoing c2.trace))
                (outgoing-decided t x c2.node_id (route_of c2.connections) m2.followers)
            ∙ rw (trace2, quiet, node2, node, links, n.same_followers, followers, same x);
        answered =
            ap replies sent
            ∙ replies-append c2.trace more
            ∙ ap (◌++◌ (replies c2.trace))
                (replies-decided t x c2.node_id (route_of c2.connections) m2.followers)
            ∙ append-nil (replies c2.trace)
            ∙ ap replies trace2
            ∙ filled;
      },
    )

respond_one :
    (b : Bytes) (x : ℕ) (c : AppContext)
    → IsCounted c.metadata
    → About c.metadata (send_response b) x
    → acks x c.metadata + 1 < u64_mod
    → (d : AppContext) × (cont_func_send b c ≡ some d) × Step (send_response b) x c d
unfolding cont_func_send
respond_one b x c counted (e, small, known) room =
    let (m1, m2, run, decides, n) = note x c.metadata small counted known room in
    let (d, end, step) =
      Noted-Step (send_response b) x c c m2 counted refl (λ k. refl) (λ k h. h) refl refl
        (sym (append-nil (replies c.trace))) n (record c { metadata = m1 }) refl refl refl
        decides in
    (d, rw (e, sign_extend_small x small, run) end, step)

receive_one :
    (b : Bytes) (x : ℕ) (c : AppContext)
    → IsCounted c.metadata
    → About c.metadata (batch_sent b) x
    → acks x c.metadata + 1 < u64_mod
    → (d : AppContext) × (req_handler_send b c ≡ some d) × Step (batch_sent b) x c d
unfolding req_handler_send emit
receive_one b x c counted (e, small) room =
    let m0 = add_recv_req 0 b x c.metadata in
    let f = file_req 0 x b c.metadata small counted in
    let (m1, m2, run, decides, n) =
      note x m0 small f.counted f.known_there (omega (arith, room, f.same_acks x)) in
    let ack : Effect (Unit {0}) = reply (cmt_msg_bytes (ack_msg c.node_id x)) in
    let c1 : AppContext = record c { metadata = m0; trace = c.trace ++ (ack ∷ []) } in
    let (d, end, step) =
      Noted-Step (batch_sent b) x c c1 m2 f.counted refl f.same_acks f.known_kept f.same_followers
        (outgoing-append c.trace (ack ∷ []) ∙ append-nil (outgoing c.trace))
        (replies-append c.trace (ack ∷ [])) n (record c1 { metadata = m1 }) refl refl refl
        decides in
    (d, rw (deserialize_all b, e, within x small, run) end, step)
  where
    within : (x : ℕ) → x < 2 ^ 31 → x % u32_mod ≡ x
    within x h = omega (arith, h)

pub dispatch_one :
    (e : Event) (x : ℕ) (c : AppContext)
    → IsCounted c.metadata
    → About c.metadata e x
    → acks x c.metadata + 1 < u64_mod
    → (d : AppContext) × (dispatch e c ≡ some d) × Step e x c d
unfolding dispatch
dispatch_one (batch_sent b) x c counted about room = receive_one b x c counted about room
dispatch_one (send_response b) x c counted about room = respond_one b x c counted about room
dispatch_one (committed b) x c counted about room = absurd about
dispatch_one (cmt_response b) x c counted about room = absurd about
