-- ===== src/Alc/Once.antt =====
-- alc/main.cc: the commits that a node sends while batches and responses to its own batches arrive.
use replication_protos.Prelude.{
  ℕ, ◌+◌, ◌<◌, ◌≡◌, refl, ap, sym, ◌∙◌, Bool, true, false, Bool-cases, inl, inr, some, List, [],
  ◌∷◌, ◌++◌, append-nil, append_assoc, arith, ◌==◌, ltb, leb, ==_sound, if◌then◌else◌, Bytes, count,
  u64_mod,
}
use replication_protos.Rpc.{Effect, to_each, outgoing, replies, route_of}
use replication_protos.Chain.Msg.{msg_bytes}
use replication_protos.Alc.Rounds.{Metadata, tot_acks}
use replication_protos.Alc.Node.{
  AppContext, Event, batch_sent, committed, send_response, cmt_response, req_commit, resp_size,
  broadcast_msg,
}
use replication_protos.Alc.Run.{dispatch_all}
use replication_protos.Alc.Quorum.{acks, is_known, IsCounted}
use replication_protos.Alc.Steps.{About, answers, decided, dispatch_one}

-- The commits of the rounds `ys`, each to all followers.
abbrev pub commits : ℕ → (ℕ → ℕ) → List ℕ → List ℕ → List (Effect (Unit {0}))
commits node route followers [] = []
commits node route followers (y ∷ ys) =
    to_each req_commit (λ dest. msg_bytes (broadcast_msg node y)) resp_size route followers
    ++ commits node route followers ys

-- Each of the events acknowledges a round.
abbrev pub Acknowledge : Metadata → List Event → List ℕ → Type 0
Acknowledge m [] [] = Unit
Acknowledge m [] (x ∷ xs) = ⊥
Acknowledge m (e ∷ es) [] = ⊥
Acknowledge m (e ∷ es) (x ∷ xs) = About m e x × Acknowledge m es xs

About-kept :
    (m m' : Metadata) (e : Event) (x : ℕ)
    → ((k : ℕ) → is_known k m ≡ true → is_known k m' ≡ true)
    → About m e x
    → About m' e x
About-kept m m' (batch_sent b) x kept about = about
About-kept m m' (send_response b) x kept (e, small, known) = (e, small, kept x known)
About-kept m m' (committed b) x kept about = about
About-kept m m' (cmt_response b) x kept about = about

-- One commit where the fourth acknowledgement is between the first count and the second.
abbrev pub once : ℕ → ℕ → ℕ
once before after = if ltb before tot_acks then (if leb tot_acks after then 1 else 0) else 0

once_step :
    (x k a n c : ℕ) (ys : List ℕ) (t : Bool)
    → a + (if x == k then 1 else 0) ≡ n
    → count k ys ≡ once n (n + c)
    → ((x == k) ≡ true → t ≡ ((a + 1) == tot_acks))
    → count k (if t then x ∷ ys else ys) ≡ once a (a + ((if x == k then 1 else 0) + c))
once_step x k a n c ys t h e q = elim (Bool-cases (x == k)) [
  | inl same ↦ ground (arith, h, e, q same, same)
  | inr other ↦ ground (arith, h, e, other)
]

commits-if :
    (t : Bool) (node : ℕ) (route : ℕ → ℕ) (followers : List ℕ) (x : ℕ) (ys : List ℕ)
    → decided t x node route followers ++ commits node route followers ys
      ≡ commits node route followers (if t then x ∷ ys else ys)
commits-if true node route followers x ys = refl
commits-if false node route followers x ys = refl

-- The responses to all of the events.
abbrev pub all_answers : ℕ → List Event → List ℕ → List Bytes
all_answers node [] xs = []
all_answers node (e ∷ es) [] = []
all_answers node (e ∷ es) (x ∷ xs) = answers e node x ++ all_answers node es xs

-- What the events that acknowledge the rounds `xs` lead to.
abbrev pub CommitsOnce : List Event → List ℕ → AppContext → Type 0
CommitsOnce es xs c =
    (d : AppContext) × (ys : List ℕ) × (dispatch_all es c ≡ some d)
    × (outgoing d.trace
        ≡ outgoing c.trace ++ commits c.node_id (route_of c.connections) c.metadata.followers ys)
    × (replies d.trace ≡ replies c.trace ++ all_answers c.node_id es xs)
    × ((k : ℕ) → count k ys ≡ once (acks k c.metadata) (acks k c.metadata + count k xs))
    × ((k : ℕ) → acks k d.metadata ≡ acks k c.metadata + count k xs)

commits_from :
    (es : List Event) (xs : List ℕ) (m : Metadata) (c : AppContext)
    → IsCounted c.metadata
    → ((k : ℕ) → is_known k m ≡ true → is_known k c.metadata ≡ true)
    → Acknowledge m es xs
    → ((k : ℕ) → acks k c.metadata + count k xs < u64_mod)
    → CommitsOnce es xs c
unfolding dispatch_all
commits_from [] [] m c counted kept h room = (
  c,
  [],
  refl,
  sym (append-nil (outgoing c.trace)),
  sym (append-nil (replies c.trace)),
  (λ k. ground arith),
  (λ k. omega arith),
)
commits_from [] (x ∷ xs) m c counted kept h room = absurd h
commits_from (e ∷ es) [] m c counted kept h room = absurd h
commits_from (e ∷ es) (x ∷ xs) m c counted kept (about, h) room =
    let (c1, run, s) =
      dispatch_one e x c counted (About-kept m c.metadata e x kept about)
        (ground (arith, room x)) in
    let (d, ys, runs, sent, filled, counts, totals) =
      commits_from es xs m c1 s.counted (λ k known. s.kept k (kept k known)) h
        (λ k. omega (arith, s.one_more k, room k)) in
    let t = (acks x c.metadata + 1) == tot_acks in
    (
      d,
      (if t then x ∷ ys else ys),
      rw run runs,
      sent
          ∙ rw (s.sent, s.node, s.same_followers, s.routes_kept)
              (append_assoc (outgoing c.trace)
                  (decided t x c.node_id (route_of c.connections) c.metadata.followers)
                  (commits c.node_id (route_of c.connections) c.metadata.followers ys)
                ∙ ap (◌++◌ (outgoing c.trace))
                    (commits-if t c.node_id (route_of c.connections) c.metadata.followers x ys)),
      filled
          ∙ rw (s.answered, s.node)
              (append_assoc (replies c.trace) (answers e c.node_id x)
                (all_answers c.node_id es xs)),
      (λ k.
          once_step x k (acks k c.metadata) (acks k c1.metadata) (count k xs) ys t
            (sym (s.one_more k)) (counts k)
            (λ same. ap (λ j. (acks j c.metadata + 1) == tot_acks) (==_sound x k same))),
      (λ k. omega (arith, totals k, s.one_more k)),
    )

-- A node of alc/main.cc handles batches of other nodes and responses to its own batches, each about
-- a round below 2^31 that is known if it is a response's, without a fault; it counts every one as
-- an acknowledgement of its round. It sends the commit of a round, a message with its id and the
-- round to every follower over the session of that follower, exactly once if these bring the
-- acknowledgements of the round from less than four to four or more, and not at all otherwise,
-- whatever the order. It answers each batch, in their order, by one acknowledgement with its id and
-- the round, and sends no other request and no other answer with bytes. At the start the rounds
-- under commit are those with four acknowledgements or more; no count reaches 2^64.
pub dispatch_all-Acknowledge :
    (es : List Event) (xs : List ℕ) (c : AppContext)
    → IsCounted c.metadata
    → Acknowledge c.metadata es xs
    → ((k : ℕ) → acks k c.metadata + count k xs < u64_mod)
    → CommitsOnce es xs c
dispatch_all-Acknowledge es xs c counted h room =
    commits_from es xs c.metadata c counted (λ k known. known) h room
