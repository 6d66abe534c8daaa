-- ===== src/Alc/Flash.antt =====
-- alc/main.cc: `flash_batcher`, which broadcasts the last batch.
use replication_protos.Prelude.{
  ℕ, ◌+◌, ◌*◌, ◌^◌, ◌≤◌, ◌<◌, ◌≡◌, ap, sym, subst, ◌∙◌, some, List, ◌++◌, arith, ◌==◌, ==_refl,
  if◌then◌else◌, Bytes, count, u64_mod, some_injective, append_assoc,
}
use replication_protos.Rpc.{to_each, route_of, outgoing, outgoing-append, outgoing-to_each}
use replication_protos.Chain.Msg.{msg_size}
use replication_protos.Alc.Rounds.{tot_acks, count_ack}
use replication_protos.Alc.Node.{
  AppContext, Event, resp_size, round_size, batch_sz, req_send, flash_batcher,
}
use replication_protos.Alc.Run.{dispatch_all}
use replication_protos.Alc.Once.{Acknowledge, commits, once, dispatch_all-Acknowledge}
use replication_protos.Alc.Quorum.{acks, IsCounted, count_ack_below}
use replication_protos.Alc.Batching.{IsReady, empty_buff-IsReady}
use replication_protos.Alc.Broadcasting.{IsBroadcast, batch_body, load-front, broadcast_batch}

-- `flash_batcher` broadcasts the messages that are there, and counts one acknowledgement itself.
pub flash_batcher_lem :
    (tail : ℕ → ℕ → Bytes) (dests : List ℕ) (c : AppContext)
    → IsReady c.batcher
    → 1 ≤ c.batcher.cur_idx
    → IsCounted c.metadata
    → c.batcher.count < 2 ^ 31
    → acks c.batcher.count c.metadata + 1 < tot_acks
    → (d : AppContext) × (flash_batcher tail dests c ≡ some d)
      × IsBroadcast (batch_body tail (msg_size * c.batcher.cur_idx) c.batcher) resp_size dests c d
      × IsReady d.batcher
      × ((k : ℕ) → acks k d.metadata ≡ acks k c.metadata + (if c.batcher.count == k then 1 else 0))
unfolding flash_batcher
flash_batcher_lem tail dests c ready held counted small few =
    let n = msg_size * c.batcher.cur_idx in
    let some_held : round_size ≤ n = omega (arith, held) in
    let inside : n ≤ batch_sz = omega (arith, ready.within) in
    let (f, run, done, same, batch, own) =
      broadcast_batch tail n resp_size dests c some_held inside ready counted small in
    let round : f.batcher.count ≡ c.batcher.count = ap (λ b. b.count) batch in
    let (m, counts, noted) =
      count_ack_below c.batcher.count f.metadata small done.counted ((done.answered 0).2)
        (omega (arith, few, same c.batcher.count)) in
    let counts' : count_ack f.batcher.count f.metadata ≡ some m =
      ap (λ r. count_ack r f.metadata) round ∙ counts in
    let (b, emptied, ready', next, none_held) =
      empty_buff-IsReady f.batcher (subst IsReady (sym batch) ready) in
    (
      record f { metadata = m; batcher = b },
      rw (load-front n c.batcher ready inside, run, counts', emptied),
      record {
        sent = done.sent;
        routes_kept = done.routes_kept;
        readable = done.readable;
        answered = λ peer.
            let (e, _, known) = done.answered peer in
            (e, small, noted.kept c.batcher.count ∙ known);
        counted = noted.counted;
        current = noted.same_current ∙ done.current;
        node = done.node;
        followers = noted.same_followers ∙ done.followers;
      },
      ready',
      (λ k. noted.one_more k ∙ ap (λ a. a + (if c.batcher.count == k then 1 else 0)) (same k)),
    )

-- flash_batcher of alc/main.cc counts one acknowledgement itself: after it has sent the last batch,
-- sent to each destination over its session, the node sends the commit of the round of that batch
-- to every follower, over the session of that follower, once when batches and responses bring it
-- three acknowledgements in all instead of four. The batcher holds one message at least, the round
-- is below 2^31, fewer than three acknowledgements of it were there before, the events are about
-- rounds below 2^31, known if it is a response's, the rounds under commit are at first those with
-- four acknowledgements or more, and no count reaches 2^64.
pub flash_batcher-dispatch_all :
    (tail : ℕ → ℕ → Bytes) (dests : List ℕ) (es : List Event) (xs : List ℕ) (c d : AppContext)
    → IsReady c.batcher
    → 1 ≤ c.batcher.cur_idx
    → IsCounted c.metadata
    → c.batcher.count < 2 ^ 31
    → acks c.batcher.count c.metadata + 1 < tot_acks
    → flash_batcher tail dests c ≡ some d
    → Acknowledge d.metadata es xs
    → ((k : ℕ) → acks k c.metadata + 1 + count k xs < u64_mod)
    → acks c.batcher.count c.metadata + count c.batcher.count xs ≡ 3
    → (f : AppContext) × (ys : List ℕ) × (dispatch_all es d ≡ some f)
      × (outgoing f.trace
          ≡ outgoing c.trace
            ++ (to_each req_send
                  (batch_body tail (msg_size * c.batcher.cur_idx) c.batcher)
                  resp_size
                  (route_of c.connections)
                  dests
                ++ commits c.node_id (route_of c.connections) c.metadata.followers ys))
      × (count c.batcher.count ys ≡ 1)
flash_batcher-dispatch_all tail dests es xs c d ready held counted small few run h room three =
    let (d', run', done, ready', totals) =
      flash_batcher_lem tail dests c ready held counted small few in
    let same : d' ≡ d = some_injective (sym run' ∙ run) in
    let done' =
      subst
        (IsBroadcast (batch_body tail (msg_size * c.batcher.cur_idx) c.batcher) resp_size dests c)
        same done in
    let totals' : (k : ℕ)
        → acks k d.metadata ≡ acks k c.metadata + (if c.batcher.count == k then 1 else 0) =
      λ k. ap (λ e. acks k e.metadata) (sym same) ∙ totals k in
    let (f, ys, runs, sent, _, counts, _) =
      dispatch_all-Acknowledge es xs d done'.counted h (λ k. ground (arith, totals' k, room k)) in
    (
      f,
      ys,
      runs,
      sent_both d f ys done' sent,
      last_once (acks c.batcher.count c.metadata) (acks c.batcher.count d.metadata)
          (count c.batcher.count xs) (count c.batcher.count ys)
          (totals' c.batcher.count ∙ rw (==_refl c.batcher.count)) few three
          (counts c.batcher.count),
    )
  where
    body : ℕ → Bytes
    body = batch_body tail (msg_size * c.batcher.cur_idx) c.batcher

    sent_both :
        (d f : AppContext) (ys : List ℕ)
        → IsBroadcast body resp_size dests c d
        → outgoing f.trace
          ≡ outgoing d.trace ++ commits d.node_id (route_of d.connections) d.metadata.followers ys
        → outgoing f.trace
          ≡ outgoing c.trace
            ++ (to_each req_send body resp_size (route_of c.connections) dests
                ++ commits c.node_id (route_of c.connections) c.metadata.followers ys)
    sent_both d f ys done e =
        e
        ∙ rw (done.sent, done.node, done.followers, done.routes_kept)
            (ap (λ o. o ++ commits c.node_id (route_of c.connections) c.metadata.followers ys)
                (outgoing-append c.trace
                    (to_each req_send body resp_size (route_of c.connections) dests)
                  ∙ ap (◌++◌ (outgoing c.trace))
                      (outgoing-to_each req_send body resp_size (route_of c.connections) dests))
              ∙ append_assoc (outgoing c.trace)
                  (to_each req_send body resp_size (route_of c.connections) dests)
                  (commits c.node_id (route_of c.connections) c.metadata.followers ys))

    last_once :
        (a b n y : ℕ) → b ≡ a + 1 → a + 1 < tot_acks → a + n ≡ 3 → y ≡ once b (b + n) → y ≡ 1
    last_once a b n y e few three h = ground (arith, e, few, three, h)
