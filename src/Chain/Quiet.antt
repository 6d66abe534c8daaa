-- ===== src/Chain/Quiet.antt =====
-- What a head does with deliveries: it acknowledges them, and what it sends next does not depend
-- on them.
use replication_protos.Prelude.{
  ℕ, zero, suc, ◌+◌, ◌%◌, ◌≡◌, refl, ◌∙◌, Bool, true, false, Option, some, List, [], ◌∷◌, ◌++◌,
  append-nil, arith, ◌==◌, if◌then◌else◌, ◌>>=◌, u64_mod,
}
use replication_protos.Rpc.{ack, requests, requests-append}
use replication_protos.Batch.Contents.{deserialize_all}
use replication_protos.Chain.Node.{
  AppContext, Event, forwarded, committed, completed, head, resp_size, req_handler_fw,
  req_handler_cmt, cont_func,
}
use replication_protos.Chain.Run.{dispatch, dispatch_all, run_event_loop, run_rounds, poll, drain}

-- A delivery changes nothing that the sending depends on.
pub record Quiet (c d : AppContext) : Type 0 where
  pub node : d.node_id ≡ c.node_id
  pub batch : d.batcher ≡ c.batcher
  pub count : d.enqueued_msgs_cnt ≡ c.enqueued_msgs_cnt
  pub sent : requests d.trace ≡ requests c.trace

Quiet-refl : (c : AppContext) → Quiet c c
Quiet-refl c = record { node = refl; batch = refl; count = refl; sent = refl }

pub Quiet-trans : {c d e : AppContext} → Quiet c d → Quiet d e → Quiet c e
Quiet-trans p q = record {
  node = q.node ∙ p.node;
  batch = q.batch ∙ p.batch;
  count = q.count ∙ p.count;
  sent = q.sent ∙ p.sent;
}

dispatch-Quiet :
    (e : Event) (c : AppContext)
    → c.node_id ≡ head
    → (d : AppContext) × (dispatch e c ≡ some d) × Quiet c d
unfolding dispatch req_handler_fw req_handler_cmt cont_func
dispatch-Quiet (forwarded b) c h = (
  record c { fw_count = (c.fw_count + 1) % u64_mod; trace = c.trace ++ (ack resp_size ∷ []) },
  rw (deserialize_all b) (ground arith),
  record {
    node = refl;
    batch = refl;
    count = refl;
    sent = requests-append c.trace (ack resp_size ∷ []) ∙ append-nil (requests c.trace);
  },
)
dispatch-Quiet (committed b) c h = (
  record c { cmt_count = (c.cmt_count + 1) % u64_mod; trace = c.trace ++ (ack resp_size ∷ []) },
  ground arith,
  record {
    node = refl;
    batch = refl;
    count = refl;
    sent = requests-append c.trace (ack resp_size ∷ []) ∙ append-nil (requests c.trace);
  },
)
dispatch-Quiet completed c h = (c, refl, Quiet-refl c)

-- A computation that succeeds and is quiet; `fst` takes the context out of its result.
abbrev pub Runs {ℓ} : {A : Type ℓ} → (A → AppContext) → AppContext → Option A → Type ℓ
Runs {A = A} fst c m = (r : A) × (m ≡ some r) × Quiet c (fst r)

Runs-bind {ℓ κ} :
    {A : Type ℓ} {B : Type κ} (fst : A → AppContext) (snd : B → AppContext) (c : AppContext)
    (m : Option A) (f : A → Option B)
    → Runs fst c m
    → ((r : A) → Quiet c (fst r) → Runs snd (fst r) (f r))
    → Runs snd c (m >>= f)
Runs-bind fst snd c m f (r, e, q) k = let (s, e', q') = k r q in (s, rw e e', Quiet-trans q q')

Runs-if {ℓ} :
    {A : Type ℓ} (fst : A → AppContext) (c : AppContext) (b : Bool) (m n : Option A)
    → Runs fst c m
    → Runs fst c n
    → Runs fst c (if b then m else n)
Runs-if fst c true m n h k = h
Runs-if fst c false m n h k = k

abbrev pub same : AppContext → AppContext
same c = c

abbrev pub first : AppContext × List (List Event) → AppContext
first r = r.0

pub head_of_Quiet : {c d : AppContext} → c.node_id ≡ head → Quiet c d → d.node_id ≡ head
head_of_Quiet h q = q.node ∙ h

dispatch_all-Quiet :
    (es : List Event) (c : AppContext) → c.node_id ≡ head → Runs same c (dispatch_all es c)
unfolding dispatch_all
dispatch_all-Quiet [] c h = (c, refl, Quiet-refl c)
dispatch_all-Quiet (e ∷ es) c h =
    Runs-bind same same c (dispatch e c) (dispatch_all es) (dispatch-Quiet e c h)
      λ d q. dispatch_all-Quiet es d (head_of_Quiet h q)

pub run_event_loop-Quiet :
    (c : AppContext) (rounds : List (List Event))
    → c.node_id ≡ head
    → Runs first c (run_event_loop c rounds)
unfolding run_event_loop
run_event_loop-Quiet c [] h = ((c, []), refl, Quiet-refl c)
run_event_loop-Quiet c (es ∷ rounds) h =
    Runs-bind same first c (dispatch_all es c) _ (dispatch_all-Quiet es c h)
      λ d q. ((d, rounds), refl, Quiet-refl d)

run_rounds-Quiet :
    (n : ℕ) (c : AppContext) (rounds : List (List Event))
    → c.node_id ≡ head
    → Runs first c (run_rounds n c rounds)
unfolding run_rounds
run_rounds-Quiet zero c rounds h = ((c, rounds), refl, Quiet-refl c)
run_rounds-Quiet (suc n) c rounds h =
    Runs-bind first first c (run_event_loop c rounds) _ (run_event_loop-Quiet c rounds h)
      λ r q. run_rounds-Quiet n r.0 r.1 (head_of_Quiet h q)

pub drain-Quiet :
    (c : AppContext) (rounds : List (List Event)) → c.node_id ≡ head → Runs same c (drain c rounds)
unfolding drain
drain-Quiet c [] h = (c, refl, Quiet-refl c)
drain-Quiet c (es ∷ rounds) h =
    Runs-bind same same c (dispatch_all es c) _ (dispatch_all-Quiet es c h)
      λ d q. drain-Quiet d rounds (head_of_Quiet h q)

pub poll-Quiet :
    (c : AppContext) (rounds : List (List Event)) → c.node_id ≡ head → Runs first c (poll c rounds)
unfolding poll
poll-Quiet c rounds h =
    Runs-bind first first c
      (if c.enqueued_msgs_cnt % 2 == 0 then run_rounds 10 c rounds else some (c, rounds)) _
      (Runs-if first c (c.enqueued_msgs_cnt % 2 == 0) _ _ (run_rounds-Quiet 10 c rounds h)
        ((c, rounds), refl, Quiet-refl c))
      λ r q.
        Runs-if first r.0 (r.0.enqueued_msgs_cnt % 2 == 10) _ _
          (run_event_loop-Quiet r.0 r.1 (head_of_Quiet h q)) (r, refl, Quiet-refl r.0)
