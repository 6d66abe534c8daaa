-- ===== src/Chain/Pipeline.antt =====
-- cr/main.cc: full batches on their way through the middle and the tail, and the commits back to
-- the head.
use replication_protos.Prelude.{
  ℕ, ◌+◌, ◌%◌, ◌^◌, ◌<◌, ◌≡◌, refl, ap, sym, ◌∙◌, some, List, [], ◌∷◌, ◌++◌, append-nil,
  append_assoc, arith, ◌==◌, if◌then◌else◌, Bytes, length, u64_mod,
}
use replication_protos.Rpc.{
  Effect, request, ack, reply, report, Sessions, session_of, touch, route_of-touch,
}
use replication_protos.Chain.Msg.{cmt_msg_bytes, zero_header, batch_count}
use replication_protos.Chain.Parse.{stream}
use replication_protos.Chain.Node.{
  AppContext, Event, Diagnostic, forwarded, committed, head, middle, tail, req_forward, req_commit,
  resp_size, req_handler_cmt,
}
use replication_protos.Chain.Run.{dispatch, dispatch_all}
use replication_protos.Chain.Relay.{req_handler_fw-middle, req_handler_fw_tail}

-- The bytes of the commit of the requests j to j+15.
abbrev pub commit_of : ℕ → Bytes
commit_of j = cmt_msg_bytes (record { hdr = zero_header; s_cmt_idx = j; e_cmt_idx = j + 15 })

-- The events at the node that the requests of a trace go to.
abbrev pub arriving : List (Effect Diagnostic) → List Event
arriving [] = []
arriving (request s t b n ∷ es) =
    (if t == req_forward then forwarded b else committed b) ∷ arriving es
arriving (ack n ∷ es) = arriving es
arriving (reply b ∷ es) = arriving es
arriving (report r ∷ es) = arriving es

-- For each index one batch of 16 messages from it on.
abbrev pub batches : ℕ → ℕ → List ℕ → List Event
batches src dest [] = []
batches src dest (j ∷ js) = forwarded (stream src dest j batch_count) ∷ batches src dest js

-- What the middle, the tail and the head send for these batches.
abbrev pub passed_on : ℕ → ℕ → ℕ → List ℕ → List (Effect Diagnostic)
passed_on session src dest [] = []
passed_on session src dest (j ∷ js) =
    ack resp_size
    ∷ request session req_forward (stream src dest j batch_count) resp_size
    ∷ passed_on session src dest js

abbrev pub commits : ℕ → List ℕ → List (Effect Diagnostic)
commits session [] = []
commits session (j ∷ js) =
    ack resp_size ∷ request session req_commit (commit_of j) resp_size ∷ commits session js

abbrev pub acks : List ℕ → List (Effect Diagnostic)
acks [] = []
acks (j ∷ js) = ack resp_size ∷ acks js

-- Every batch has its indexes below 2^31.
abbrev pub Small : List ℕ → Type 0
Small [] = Unit
Small (j ∷ js) = (j + 15 < 2 ^ 31) × Small js

session_of-touch : (id k : ℕ) (m : Sessions) → session_of k (touch id m) ≡ session_of k m
session_of-touch id k m = ap (λ route. route k) (route_of-touch id m)

middle_passes :
    (src dest : ℕ) (js : List ℕ) (c : AppContext)
    → c.node_id ≡ middle
    → c.fw_count + length js < u64_mod
    → (d : AppContext) × (dispatch_all (batches src dest js) c ≡ some d)
      × (d.trace ≡ c.trace ++ passed_on (session_of tail c.connections) src dest js)
      × (d.fw_count ≡ c.fw_count + length js)
unfolding dispatch_all dispatch
middle_passes src dest [] c e room = (c, refl, sym (append-nil c.trace), omega arith)
middle_passes src dest (j ∷ js) c e room =
    let b = stream src dest j batch_count in
    let s = session_of tail c.connections in
    let two : List (Effect Diagnostic) = ack resp_size ∷ request s req_forward b resp_size ∷ [] in
    let c1 : AppContext = record c {
      fw_count = (c.fw_count + 1) % u64_mod;
      connections = touch tail c.connections;
      trace = c.trace ++ two;
    } in
    let (d, run, sent, count) = middle_passes src dest js c1 e (omega (arith, room)) in
    (
      d,
      rw (req_handler_fw-middle b c e, run),
      sent
          ∙ append_assoc c.trace two (passed_on (session_of tail c1.connections) src dest js)
          ∙ ap (λ r. c.trace ++ (two ++ passed_on r src dest js))
              (session_of-touch tail tail c.connections),
      omega (arith, count, room),
    )

tail_commits :
    (session src dest : ℕ) (js : List ℕ) (c : AppContext)
    → c.node_id ≡ tail
    → Small js
    → c.fw_count + length js < u64_mod
    → (d : AppContext) × (dispatch_all (arriving (passed_on session src dest js)) c ≡ some d)
      × (d.trace ≡ c.trace ++ commits (session_of head c.connections) js)
      × (d.fw_count ≡ c.fw_count + length js)
unfolding dispatch_all dispatch
tail_commits session src dest [] c e small room = (c, refl, sym (append-nil c.trace), omega arith)
tail_commits session src dest (j ∷ js) c e (h, small) room =
    let b = stream src dest j batch_count in
    let s = session_of head c.connections in
    let two : List (Effect Diagnostic) =
      ack resp_size ∷ request s req_commit (commit_of j) resp_size ∷ [] in
    let c1 : AppContext = record c {
      fw_count = (c.fw_count + 1) % u64_mod;
      connections = touch head c.connections;
      trace = c.trace ++ two;
    } in
    let (d, run, sent, count) = tail_commits session src dest js c1 e small (omega (arith, room)) in
    (
      d,
      rw (req_handler_fw_tail src dest j c e h, run),
      sent
          ∙ append_assoc c.trace two (commits (session_of head c1.connections) js)
          ∙ ap (λ r. c.trace ++ (two ++ commits r js)) (session_of-touch head head c.connections),
      omega (arith, count, room),
    )

req_handler_cmt-head :
    (b : Bytes) (c : AppContext)
    → c.node_id ≡ head
    → req_handler_cmt b c ≡ record c {
      cmt_count = (c.cmt_count + 1) % u64_mod;
      trace = c.trace ++ (ack resp_size ∷ []);
    }
unfolding req_handler_cmt
req_handler_cmt-head b c e = ground arith

head_counts :
    (session : ℕ) (js : List ℕ) (c : AppContext)
    → c.node_id ≡ head
    → c.cmt_count + length js < u64_mod
    → (d : AppContext) × (dispatch_all (arriving (commits session js)) c ≡ some d)
      × (d.trace ≡ c.trace ++ acks js)
      × (d.cmt_count ≡ c.cmt_count + length js)
unfolding dispatch_all dispatch
head_counts session [] c e room = (c, refl, sym (append-nil c.trace), omega arith)
head_counts session (j ∷ js) c e room =
    let c1 : AppContext = record c {
      cmt_count = (c.cmt_count + 1) % u64_mod;
      trace = c.trace ++ (ack resp_size ∷ []);
    } in
    let (d, run, sent, count) = head_counts session js c1 e (omega (arith, room)) in
    (
      d,
      rw (req_handler_cmt-head (commit_of j) c e, run),
      sent ∙ append_assoc c.trace (ack resp_size ∷ []) (acks js),
      omega (arith, count, room),
    )

-- Full batches of cr/main.cc, of the requests j to j+15 for each of the given j with j+15 below
-- 2^31, arrive one after the other at the middle. The middle acknowledges each and passes it on,
-- byte for byte and in their order, over its session of the tail. When what it sends arrives at the
-- tail, the tail acknowledges each batch and sends, over its session of the head and in the same
-- order, one commit that carries j and j+15. When these arrive at the head, the head acknowledges
-- each. None faults or reports anything, and each of the three counts as many as there are batches,
-- if its counter does not reach 2^64.
pub dispatch_all-arriving :
    (src dest : ℕ) (js : List ℕ) (m t h : AppContext)
    → m.node_id ≡ middle
    → t.node_id ≡ tail
    → h.node_id ≡ head
    → Small js
    → m.fw_count + length js < u64_mod
    → t.fw_count + length js < u64_mod
    → h.cmt_count + length js < u64_mod
    → (m' : AppContext) × (t' : AppContext) × (h' : AppContext) × (ms : List (Effect Diagnostic))
      × (ts : List (Effect Diagnostic)) × (dispatch_all (batches src dest js) m ≡ some m')
      × (m'.trace ≡ m.trace ++ ms)
      × (ms ≡ passed_on (session_of tail m.connections) src dest js)
      × (dispatch_all (arriving ms) t ≡ some t')
      × (t'.trace ≡ t.trace ++ ts)
      × (ts ≡ commits (session_of head t.connections) js)
      × (dispatch_all (arriving ts) h ≡ some h')
      × (h'.trace ≡ h.trace ++ acks js)
      × (m'.fw_count ≡ m.fw_count + length js)
      × (t'.fw_count ≡ t.fw_count + length js)
      × (h'.cmt_count ≡ h.cmt_count + length js)
dispatch_all-arriving src dest js m t h em et eh small rm rt rh =
    let (m', passes, m_sent, m_count) = middle_passes src dest js m em rm in
    let (t', answers, t_sent, t_count) =
      tail_commits (session_of tail m.connections) src dest js t et small rt in
    let (h', counts, h_sent, h_count) = head_counts (session_of head t.connections) js h eh rh in
    (
      m',
      t',
      h',
      passed_on (session_of tail m.connections) src dest js,
      commits (session_of head t.connections) js,
      passes,
      m_sent,
      refl,
      answers,
      t_sent,
      refl,
      counts,
      h_sent,
      m_count,
      t_count,
      h_count,
    )
