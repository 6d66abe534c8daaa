-- ===== src/Pb/Leader.antt =====
-- bft-pb/main.cc: the leader fills a batch and sends it.
use replication_protos.Prelude.{
  ℕ, zero, suc, ◌+◌, ◌*◌, ◌%◌, ◌≤◌, ◌<◌, ◌≡◌, refl, ap, ap₂, sym, subst, ◌∙◌, true, some, List, [],
  ◌∷◌, ◌++◌, append-nil, append_assoc, arith, Bytes, zeros, load, load_eq, length, length-append,
  take, u64_mod, All,
}
use replication_protos.Outcome.{ok}
use replication_protos.Attest.{Platform, hmac_size, hmac_key}
use replication_protos.Batch.{Batcher, enqueue_req, serialize_batch, empty_buff}
use replication_protos.Batch.Contents.{
  IsValid, contents, enqueue_req-Accepted, enqueue_req_full, empty_buff-IsValid,
}
use replication_protos.A2m.Layout.{length-zeros}
use replication_protos.Tlog.Format.{PMsg, p_msg_size}
use replication_protos.Tlog.Roundtrip.{length-p_fields}
use replication_protos.Tlog.Node.{sign, req_propose}
use replication_protos.Rpc.{Effect, request, to_each, route_of, route_of-touch, session_of}
use replication_protos.Tlog.Packet.{sign_lem}
use replication_protos.Pb.Format.{ack_msg_size}
use replication_protos.Pb.Node.{
  AppContext, Diagnostic, batch_count, request_msg, p_msg_bytes, send_req, broadcast, send, emit,
}
use replication_protos.Pb.InStep.{IsRequest, batch_bytes, length-batch_bytes}
use replication_protos.Pb.Run.{poll, run_rounds, run_event_loop, send_loop}
use replication_protos.Pb.Requests.{requests, HasHashes, request_msg-IsRequest}

-- The batcher holds the requests `ms`.
pub record IsHolding (b : Batcher) (ms : List PMsg) : Type 0 where
  pub valid : IsValid batch_count p_msg_size b
  pub held : contents p_msg_size b ≡ batch_bytes ms
  pub count : b.cur_idx ≡ length ms

batch_bytes-append :
    (ms : List PMsg) (m : PMsg) → batch_bytes (ms ++ (m ∷ [])) ≡ batch_bytes ms ++ p_msg_bytes m
batch_bytes-append [] m = append-nil (p_msg_bytes m)
batch_bytes-append (x ∷ ms) m =
    ap (◌++◌ (p_msg_bytes x)) (batch_bytes-append ms m)
    ∙ sym (append_assoc (p_msg_bytes x) (batch_bytes ms) (p_msg_bytes m))

-- A request that the batcher takes.
enqueue_req-IsHolding :
    (b : Batcher) (ms : List PMsg) (m : PMsg)
    → IsHolding b ms
    → IsRequest m
    → length ms < batch_count
    → (b' : Batcher) × (enqueue_req batch_count p_msg_size b (p_msg_bytes m) ≡ some (true, b'))
      × IsHolding b' (ms ++ (m ∷ []))
enqueue_req-IsHolding b ms m v f h =
    let (b', a) =
      enqueue_req-Accepted batch_count p_msg_size b (p_msg_bytes m) v.valid (length-p_fields m f.0)
        (omega (arith, v.count, h)) in
    (
      b',
      a.result,
      record {
        valid = a.valid;
        held = a.appended ∙ ap (λ c. c ++ p_msg_bytes m) v.held ∙ sym (batch_bytes-append ms m);
        count = omega (arith, a.count, v.count, length-append {0} ms (m ∷ []));
      },
    )

-- With nothing delivered, polling does nothing.
pub poll_quiet :
    (ctx : AppContext) (openssl : Bytes → Bytes → Bytes) (platform : Platform)
    → poll openssl platform ctx [] ≡ ok (ctx, [])
unfolding poll run_rounds run_event_loop
poll_quiet ctx openssl platform = ground arith

empty_buff-IsHolding :
    (b : Batcher) → IsValid batch_count p_msg_size b → IsHolding (empty_buff b) []
unfolding empty_buff
empty_buff-IsHolding b v = record {
  valid = empty_buff-IsValid batch_count p_msg_size v;
  held = refl;
  count = refl;
}

-- Sending changes the sessions and the trace only.
broadcast_keeps :
    (body : Bytes) (resp : ℕ) (dests : List ℕ) (ctx : AppContext)
    → ((broadcast body resp dests ctx).batcher ≡ ctx.batcher)
      × ((broadcast body resp dests ctx).enqueued_msgs_cnt ≡ ctx.enqueued_msgs_cnt)
      × ((broadcast body resp dests ctx).metadata ≡ ctx.metadata)
unfolding broadcast send emit
broadcast_keeps body resp [] ctx = (refl, refl, refl)
broadcast_keeps body resp (d ∷ dests) ctx = broadcast_keeps body resp dests (send body resp d ctx)

pub broadcast_any :
    (body : Bytes) (resp : ℕ) (dests : List ℕ) (ctx : AppContext) (b : Batcher)
    → (broadcast body resp dests (record ctx { batcher = b })).trace
      ≡ (broadcast body resp dests ctx).trace
unfolding broadcast send emit
broadcast_any body resp [] ctx b = refl
broadcast_any body resp (d ∷ dests) ctx b = broadcast_any body resp dests (send body resp d ctx) b

-- Every destination gets the bytes, over its session.
pub broadcast-to_each :
    (body : Bytes) (resp : ℕ) (dests : List ℕ) (ctx : AppContext)
    → (broadcast body resp dests ctx).trace
      ≡ ctx.trace ++ to_each req_propose (λ dest. body) resp (route_of ctx.connections) dests
unfolding broadcast send emit
broadcast-to_each body resp [] ctx = sym (append-nil ctx.trace)
broadcast-to_each body resp (d ∷ dests) ctx =
    let first : Effect Diagnostic = request (session_of d ctx.connections) req_propose body resp in
    broadcast-to_each body resp dests (send body resp d ctx)
    ∙ ap
        (λ route.
          (ctx.trace ++ (first ∷ [])) ++ to_each req_propose (λ dest. body) resp route dests)
        (route_of-touch d ctx.connections)
    ∙ append_assoc ctx.trace (first ∷ [])
        (to_each req_propose (λ dest. body) resp (route_of ctx.connections) dests)

module _ (openssl : Bytes → Bytes → Bytes)
    (code_size : (k m : Bytes) → length (openssl k m) ≡ hmac_size) (platform : Platform) where
  abbrev pub signed : List PMsg → Bytes
  signed ms = batch_bytes ms ++ openssl hmac_key (batch_bytes ms)

  send_req-fill :
      (i : ℕ) (dests : List ℕ) (ctx : AppContext) (ms : List PMsg)
      → IsHolding ctx.batcher ms
      → HasHashes ctx.metadata
      → length ms < batch_count
      → (b : Batcher) × (send_req openssl platform i dests ctx ≡ ok (record ctx { batcher = b }))
        × IsHolding b (ms ++ (request_msg i ctx.metadata ∷ []))
  unfolding send_req
  send_req-fill i dests ctx ms v h room =
      let (b, taken, after) =
        enqueue_req-IsHolding ctx.batcher ms (request_msg i ctx.metadata) v
          (request_msg-IsRequest i ctx.metadata h) room in
      (b, rw (taken), after)

  pub send_loop-fill :
      (n left total i j : ℕ) (ctx : AppContext) (ms : List PMsg)
      → total ≡ n + left
      → j ≡ n + i
      → IsHolding ctx.batcher ms
      → HasHashes ctx.metadata
      → length ms + n ≤ batch_count
      → (b : Batcher) × (send_loop openssl platform total i ctx []
          ≡ send_loop openssl platform left j (record ctx { batcher = b }) [])
        × IsHolding b (ms ++ requests n i ctx.metadata)
  unfolding send_loop
  send_loop-fill zero left total i j ctx ms e k v h room = (
    ctx.batcher,
    ap₂ (λ t m. send_loop openssl platform t m ctx []) total_eq j_eq,
    subst (IsHolding ctx.batcher) (sym (append-nil ms)) v,
  )
    where
      total_eq : total ≡ left
      total_eq = omega (arith, e)

      j_eq : i ≡ j
      j_eq = omega (arith, k)
  send_loop-fill (suc n) left total i j ctx ms e k v h room =
      let (b, step, held) =
        send_req-fill i ctx.metadata.followers ctx ms v h (omega (arith, room)) in
      let (b', rest, after) =
        send_loop-fill n left (n + left) (suc i) j (record ctx { batcher = b })
          (ms ++ (request_msg i ctx.metadata ∷ [])) refl (omega (arith, k)) held h
          (omega (arith, room, length-append {0} ms (request_msg i ctx.metadata ∷ []))) in
      (
        b',
        ap (λ t. send_loop openssl platform t i ctx []) one_more
            ∙ rw (step, poll_quiet (record ctx { batcher = b }) openssl platform) rest,
        subst (IsHolding b')
            (append_assoc ms (request_msg i ctx.metadata ∷ []) (requests n (suc i) ctx.metadata))
            after,
      )
    where
      one_more : total ≡ suc (n + left)
      one_more = omega (arith, e)

  pub send_req-full :
      (i : ℕ) (dests : List ℕ) (ctx : AppContext) (ms : List PMsg)
      → IsHolding ctx.batcher ms
      → HasHashes ctx.metadata
      → All IsRequest ms
      → length ms ≡ batch_count
      → (b : Batcher) × (send_req openssl platform i dests ctx
          ≡ ok (record (broadcast (signed ms) (ack_msg_size + hmac_size) dests ctx) {
            batcher = b;
            enqueued_msgs_cnt = (ctx.enqueued_msgs_cnt + 1) % u64_mod;
          }))
        × IsHolding b (request_msg i ctx.metadata ∷ [])
  unfolding send_req serialize_batch
  send_req-full i dests ctx ms v h f full =
      let (b, taken, after) =
        enqueue_req-IsHolding (empty_buff ctx.batcher) [] (request_msg i ctx.metadata)
          (empty_buff-IsHolding ctx.batcher v.valid) (request_msg-IsRequest i ctx.metadata h)
          (omega arith) in
      let (same_batch, same_count, _) =
        broadcast_keeps (signed ms) (ack_msg_size + hmac_size) dests ctx in
      (
        b,
        rw (
          enqueue_req_full batch_count p_msg_size ctx.batcher
              (p_msg_bytes (request_msg i ctx.metadata)) (v.count ∙ full),
          whole,
          signed_eq,
          same_batch,
          taken,
          same_count,
        ),
        after,
      )
    where
      filled : p_msg_size * batch_count ≡ ctx.batcher.cur_idx * p_msg_size
      filled = omega (arith, v.count, full)

      body_size : p_msg_size * batch_count ≡ length (batch_bytes ms)
      body_size = omega (arith, full, length-batch_bytes ms f)

      whole : load 0 (p_msg_size * batch_count) ctx.batcher.buffer ≡ some (batch_bytes ms)
      whole =
          load_eq 0 (p_msg_size * batch_count) ctx.batcher.buffer
            (omega (arith, v.valid.buffer_size))
          ∙ ap (λ n. some (take n ctx.batcher.buffer)) filled
          ∙ ap some v.held

      signed_eq :
          sign openssl platform (p_msg_size * batch_count) (batch_bytes ms ++ zeros hmac_size)
          ≡ ok (signed ms)
      signed_eq =
          ap (λ n. sign openssl platform n (batch_bytes ms ++ zeros hmac_size)) body_size
          ∙ sign_lem openssl code_size platform (batch_bytes ms) (zeros hmac_size)
              (length-zeros hmac_size)
