-- ===== src/Alc/Sending.antt =====
-- alc/main.cc: `send_req`.
use replication_protos.Prelude.{
  ℕ, ◌+◌, ◌-◌, ◌++◌, take, ◌*◌, ◌%◌, ◌^◌, ◌<◌, ◌≡◌, ◌⊎◌, refl, ap, sym, subst, ◌∙◌, Bool-cases, inl,
  inr, some, List, arith, ltb, Bytes, length, encode_le, u64_mod,
}
use replication_protos.Chain.Msg.{header_bytes, msg_size, batch_count, msg_bytes}
use replication_protos.Alc.Node.{AppContext, cmt_msg_size, round_size, broadcast_msg, send_req}
use replication_protos.Alc.Quorum.{acks, IsCounted}
use replication_protos.Alc.Batching.{
  IsReady, held, front-held, enqueue_req-IsReady, enqueue_req_full, empty_buff-IsReady,
}
use replication_protos.Alc.Broadcasting.{
  IsBroadcast, IsOwnFiled, front, batch_body, load-front, broadcast_batch,
}

length-broadcast_msg : (src idx : ℕ) → length (msg_bytes (broadcast_msg src idx)) ≡ msg_size
unfolding msg_bytes header_bytes broadcast_msg encode_le
length-broadcast_msg src idx = refl

-- `send_req` in the two cases.
pub record IsBuffered (idx : ℕ) (c d : AppContext) : Type 0 where
  pub rounds_kept : d.metadata ≡ c.metadata
  pub trace_kept : d.trace ≡ c.trace
  pub round_kept : d.batcher.count ≡ c.batcher.count
  pub one_more : d.batcher.cur_idx ≡ c.batcher.cur_idx + 1
  pub added : held d.batcher ≡ held c.batcher ++ msg_bytes (broadcast_msg c.node_id idx)

pub record IsNextRound (tail : ℕ → ℕ → Bytes) (idx : ℕ) (dests : List ℕ) (c d : AppContext)
    : Type 0 where
  pub broadcast_done :
      IsBroadcast (batch_body tail (msg_size * batch_count) c.batcher) cmt_msg_size dests c d
  pub contents :
      front (msg_size * batch_count) c.batcher
      ≡ encode_le 8 c.batcher.count ++ take (msg_size * batch_count - round_size) (held c.batcher)
  pub filed : IsOwnFiled c.node_id c.batcher c.metadata d.metadata
  pub same_acks : (k : ℕ) → acks k d.metadata ≡ acks k c.metadata
  pub next_round : d.batcher.count ≡ c.batcher.count + 1
  pub first : d.batcher.cur_idx ≡ 1
  pub alone : held d.batcher ≡ msg_bytes (broadcast_msg c.node_id idx)

-- send_req of alc/main.cc, with a batcher that holds at most 16 messages behind the number of the
-- round, keeps it so and returns. With fewer than 16 messages it puts the message of the index
-- behind those held, and sends and files nothing. With 16 it sends every destination, over the
-- session of that destination, the number of the round and the first 1016 bytes of the 1024 that it
-- holds, followed by the bytes of the request that it does not write; a receiver reads the round
-- from it. It files these 1024 bytes that it copies under the round and its own id, unless that has
-- some there already, keeps the other rounds, makes the round the current one, changes no count of
-- acknowledgements, goes on to the next round with the new message alone, and finds the round known
-- when a response that carries it arrives. The round is below 2^31, and the rounds under commit are
-- those with four acknowledgements or more, which remains so when a batch is sent.
pub send_req_lem :
    (tail : ℕ → ℕ → Bytes) (idx : ℕ) (dests : List ℕ) (c : AppContext)
    → IsReady c.batcher
    → IsCounted c.metadata
    → c.batcher.count < 2 ^ 31
    → (d : AppContext) × (send_req tail idx dests c ≡ some d)
      × IsReady d.batcher
      × (((c.batcher.cur_idx < batch_count) × IsBuffered idx c d)
          ⊎ ((c.batcher.cur_idx ≡ batch_count) × IsNextRound tail idx dests c d))
unfolding send_req
send_req_lem tail idx dests c ready counted small =
    elim (Bool-cases (ltb c.batcher.cur_idx batch_count)) [
      | inl t ↦
          let (b, run, ready', same, more, now) =
            enqueue_req-IsReady buf c.batcher ready length_buf in
          (
            record c { batcher = b },
            rw (run, t),
            ready',
            inl (
              ground (arith, t),
              record {
                rounds_kept = refl;
                trace_kept = refl;
                round_kept = same;
                one_more = more ∙ rw t;
                added = now ∙ rw t;
              },
            ),
          )
      | inr f ↦
          let (d, run, done, same, batch, own) =
            broadcast_batch tail (msg_size * batch_count) cmt_msg_size dests c (omega arith)
              (omega arith) ready counted small in
          let (b1, emptied, ready1, next, none_held) =
            empty_buff-IsReady d.batcher (subst IsReady (sym batch) ready) in
          let (b2, stored, ready2, same2, more, now) =
            enqueue_req-IsReady buf b1 ready1 length_buf in
          (
            record d { batcher = b2; enqueued_msgs_cnt = (d.enqueued_msgs_cnt + 1) % u64_mod },
            rw (
              enqueue_req_full buf c.batcher f,
              load-front (msg_size * batch_count) c.batcher ready (omega arith),
              run,
              emptied,
              stored,
            ),
            ready2,
            inr (
              ground (arith, f, ready.within),
              record {
                broadcast_done = record {
                  sent = done.sent;
                  routes_kept = done.routes_kept;
                  readable = done.readable;
                  answered = done.answered;
                  counted = done.counted;
                  current = done.current;
                  node = done.node;
                  followers = done.followers;
                };
                contents = front-held c.batcher ready (ground (arith, f, ready.within));
                filed = own;
                same_acks = same;
                next_round = same2 ∙ next ∙ rw (ap (λ b. b.count) batch) (omega (arith, small));
                first = more ∙ rw none_held;
                alone = now ∙ rw none_held;
              },
            ),
          )
    ]
  where
    buf : Bytes
    buf = msg_bytes (broadcast_msg c.node_id idx)

    length_buf : length buf ≡ msg_size
    length_buf = length-broadcast_msg c.node_id idx
