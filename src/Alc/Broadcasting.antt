-- ===== src/Alc/Broadcasting.antt =====
-- alc/main.cc: what `send_req` and `flash_batcher` do with the own batch of a round.
use replication_protos.Prelude.{
  ℕ, ◌==◌, if◌then◌else◌, ◌*◌, ◌%◌, ◌^◌, ◌≤◌, ◌<◌, ◌≡◌, refl, ap, sym, subst, ◌∙◌, some, List, ◌++◌,
  arith, Bytes, load, load_eq, load-append_le, load_inside, length-load, take, drop, encode_le,
  decode-encode_u64, u32_mod, u64_mod,
}
use replication_protos.Rpc.{to_each, route_of}
use replication_protos.Chain.Msg.{header_bytes, msg_size, batch_count}
use replication_protos.Alc.Rounds.{Metadata, find, add_recv_req}
use replication_protos.Alc.Node.{
  AppContext, batch_sent, send_response, Batcher, batch_sz, round_size, req_send, serialize_batch,
  get_consensus_round, cns_rd_of, cmt_msg_bytes, ack_msg, broadcast, file_batch,
}
use replication_protos.Alc.Quorum.{acks, is_known, IsCounted}
use replication_protos.Alc.Filing.{Filed, file_req, filed_round, find-add_recv_req}
use replication_protos.Alc.Steps.{About, broadcast-Sent}
use replication_protos.Alc.Batching.{IsReady}

-- The messages of the batch, with the number of the round in front and without the last 8 bytes.
abbrev pub front : ℕ → Batcher → Bytes
front n b = take n (drop 0 b.buffer)

pub load-front :
    (n : ℕ) (b : Batcher)
    → IsReady b
    → n ≤ batch_sz
    → load 0 n (serialize_batch b) ≡ some (front n b)
unfolding serialize_batch
load-front n b ready h = load_eq 0 n b.buffer (omega (arith, ready.size, h))

-- A receiver reads the number of the round from what is sent.
get_consensus_round-front :
    (n : ℕ) (b : Batcher) (more : Bytes)
    → IsReady b
    → round_size ≤ n
    → n ≤ batch_sz
    → b.count < u64_mod
    → get_consensus_round (front n b ++ more) ≡ some b.count
unfolding get_consensus_round
get_consensus_round-front n b more ready h k small =
    rw (first, decode-encode_u64 b.count) (ap some (omega (arith, small)))
  where
    own : load 0 n b.buffer ≡ some (front n b)
    own = load_eq 0 n b.buffer (omega (arith, ready.size, k))

    first : load 0 round_size (front n b ++ more) ≡ some (encode_le 8 b.count)
    first =
        load-append_le 0 round_size (front n b) more
          (omega (arith, length-load 0 n b.buffer own, h))
        ∙ sym (load_inside 0 n 0 round_size b.buffer own (omega (arith, h)))
        ∙ ready.head

load_cns_rd : (node x : ℕ) → load 16 8 (cmt_msg_bytes (ack_msg node x)) ≡ some (encode_le 8 x)
unfolding load cmt_msg_bytes ack_msg header_bytes encode_le
load_cns_rd node x = refl

-- The response to a batch carries its round.
pub cns_rd_of-ack_msg :
    (node x : ℕ) → x < 2 ^ 31 → cns_rd_of (cmt_msg_bytes (ack_msg node x)) ≡ some x
unfolding cns_rd_of
cns_rd_of-ack_msg node x h =
    rw (load_cns_rd node x, decode-encode_u64 x) (ap some (omega (arith, h)))

-- The own batch is in its round, and the other rounds are as they were.
abbrev pub IsOwnFiled : ℕ → Batcher → Metadata → Metadata → Type 0
IsOwnFiled node b m m1 =
    (k : ℕ)
    → find k m1.proto_meta ≡ (
        if b.count == k
        then some (filed_round node (front (msg_size * batch_count) b) (find b.count m.proto_meta))
        else find k m.proto_meta)

-- What filing the own batch leads to.
record Own (c d : AppContext) : Type 0 where
  node : d.node_id ≡ c.node_id
  filed : Filed c.batcher.count c.metadata d.metadata
  current : d.metadata.cur_rd ≡ c.batcher.count
  own : IsOwnFiled c.node_id c.batcher c.metadata d.metadata
  batch_kept : d.batcher ≡ c.batcher
  routes_kept : d.connections ≡ c.connections
  trace_kept : d.trace ≡ c.trace

file_batch_lem :
    (tail : ℕ → ℕ → Bytes) (c : AppContext)
    → IsReady c.batcher
    → IsCounted c.metadata
    → c.batcher.count < 2 ^ 31
    → (d : AppContext) × (file_batch tail c ≡ some d) × Own c d
unfolding file_batch
file_batch_lem tail c ready counted small =
    let m =
      add_recv_req c.node_id (front (msg_size * batch_count) c.batcher) c.batcher.count
        c.metadata in
    let f =
      file_req c.node_id c.batcher.count (front (msg_size * batch_count) c.batcher) c.metadata small
        counted in
    (
      record c { metadata = record m { cur_rd = c.batcher.count } },
      rw (load-front (msg_size * batch_count) c.batcher ready (omega arith), within),
      record {
        node = refl;
        filed = record {
          counted = f.counted;
          same_acks = f.same_acks;
          known_there = f.known_there;
          known_kept = f.known_kept;
          same_followers = f.same_followers;
        };
        current = refl;
        own =
            find-add_recv_req c.node_id c.batcher.count (front (msg_size * batch_count) c.batcher)
              c.metadata small;
        batch_kept = refl;
        routes_kept = refl;
        trace_kept = refl;
      },
    )
  where
    within : c.batcher.count % u32_mod ≡ c.batcher.count
    within = omega (arith, small)

-- The batch of the current round is with all of `dests`, as `body`; what a receiver gets, and its
-- response, acknowledge that round.
pub record IsBroadcast (body : ℕ → Bytes) (resp : ℕ) (dests : List ℕ) (c d : AppContext)
    : Type 0 where
  pub sent : d.trace ≡ c.trace ++ to_each req_send body resp (route_of c.connections) dests
  pub routes_kept : route_of d.connections ≡ route_of c.connections
  pub readable : (dest : ℕ) (m : Metadata) → About m (batch_sent (body dest)) c.batcher.count
  pub answered :
      (peer : ℕ)
      → About d.metadata
          (send_response (cmt_msg_bytes (ack_msg peer c.batcher.count)))
          c.batcher.count
  pub counted : IsCounted d.metadata
  pub current : d.metadata.cur_rd ≡ c.batcher.count
  pub node : d.node_id ≡ c.node_id
  pub followers : d.metadata.followers ≡ c.metadata.followers

-- The request to each destination.
abbrev pub batch_body : (ℕ → ℕ → Bytes) → ℕ → Batcher → ℕ → Bytes
batch_body tail n b dest = front n b ++ tail b.count dest

pub broadcast_batch :
    (tail : ℕ → ℕ → Bytes) (n resp : ℕ) (dests : List ℕ) (c : AppContext)
    → round_size ≤ n
    → n ≤ batch_sz
    → IsReady c.batcher
    → IsCounted c.metadata
    → c.batcher.count < 2 ^ 31
    → (d : AppContext) × (file_batch tail
          (broadcast req_send (batch_body tail n c.batcher) resp dests c)
        ≡ some d)
      × IsBroadcast (batch_body tail n c.batcher) resp dests c d
      × ((k : ℕ) → acks k d.metadata ≡ acks k c.metadata)
      × (d.batcher ≡ c.batcher)
      × IsOwnFiled c.node_id c.batcher c.metadata d.metadata
broadcast_batch tail n resp dests c h k ready counted small =
    let s = broadcast-Sent req_send (batch_body tail n c.batcher) resp dests c in
    let c1 = broadcast req_send (batch_body tail n c.batcher) resp dests c in
    let (d, run, own) =
      file_batch_lem tail c1 (subst IsReady (sym s.batch_kept) ready)
        (subst IsCounted (sym s.rounds_kept) counted)
        (subst (λ b. b.count < 2 ^ 31) (sym s.batch_kept) small) in
    let round : c1.batcher.count ≡ c.batcher.count = ap (λ b. b.count) s.batch_kept in
    (
      d,
      run,
      record {
        sent = own.trace_kept ∙ s.trace_more;
        routes_kept = ap route_of own.routes_kept ∙ s.routes_kept;
        readable = λ dest m. (
          get_consensus_round-front n c.batcher (tail c.batcher.count dest) ready h k
              (omega (arith, small)),
          small,
        );
        answered = λ peer. (
          cns_rd_of-ack_msg peer c.batcher.count small,
          small,
          ap (λ x. is_known x d.metadata) (sym round) ∙ own.filed.known_there,
        );
        counted = own.filed.counted;
        current = own.current ∙ round;
        node = own.node ∙ s.node;
        followers = own.filed.same_followers ∙ ap (λ m. m.followers) s.rounds_kept;
      },
      (λ j. own.filed.same_acks j ∙ ap (acks j) s.rounds_kept),
      own.batch_kept ∙ s.batch_kept,
      subst (λ m. IsOwnFiled c.node_id c.batcher m d.metadata) s.rounds_kept
          (subst (λ b. IsOwnFiled c.node_id b c1.metadata d.metadata) s.batch_kept
            (subst (λ n. IsOwnFiled n c1.batcher c1.metadata d.metadata) s.node own.own)),
    )
