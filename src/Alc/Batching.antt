-- ===== src/Alc/Batching.antt =====
-- alc/msg.h: the batcher keeps the number of the round in front of the messages.
use replication_protos.Prelude.{
  ℕ, ◌+◌, ◌-◌, ◌*◌, ◌%◌, ◌≤◌, ◌≡◌, refl, ap, sym, ◌∙◌, true, false, Bool-cases, inl, inr, some,
  ◌++◌, arith, ltb, if◌then◌else◌, Bytes, load, store, store_eq, store_front, load_prefix,
  load-append_le, length-store, length-append, length-drop, drop-append_le, drop-take_add,
  take-append_exact, take-take_add, load_eq, ap₂, append_assoc, some_injective, take, drop, length,
  length-take, take-drop, encode_le, length-encode_le, u32_mod, u64_mod,
}
use replication_protos.Chain.Msg.{msg_size, batch_count}
use replication_protos.Alc.Node.{Batcher, init, batch_sz, round_size, enqueue_req, empty_buff}

-- The buffer has its size, begins with the number of the round, and holds at most 16 messages.
pub record IsReady (b : Batcher) : Type 0 where
  pub size : length b.buffer ≡ batch_sz
  pub within : b.cur_idx ≤ batch_count
  pub head : load 0 round_size b.buffer ≡ some (encode_le 8 b.count)

-- The messages that wait.
abbrev pub held : Batcher → Bytes
held b = take (b.cur_idx * msg_size) (drop round_size b.buffer)

-- What is written behind `n` bytes follows them.
take-store_behind :
    (k n off : ℕ) (bytes block : Bytes) {block' : Bytes}
    → off ≡ k + n
    → off + length bytes ≤ length block
    → store off bytes block ≡ some block'
    → take (n + length bytes) (drop k block') ≡ take n (drop k block) ++ bytes
take-store_behind k n off bytes block {block'} e inside run =
    ap (λ b. take (n + length bytes) (drop k b)) written
    ∙ ap (take (n + length bytes)) (
        drop-append_le k (take (k + n) block) (bytes ++ rest)
          (omega (arith, length-take (k + n) block, e, inside))
        ∙ ap (λ a. a ++ (bytes ++ rest)) (drop-take_add k n block)
        ∙ sym (append_assoc (take n (drop k block)) bytes rest))
    ∙ take-append_exact (n + length bytes) (take n (drop k block) ++ bytes) rest (
        omega (
          arith,
          length-append (take n (drop k block)) bytes,
          length-take n (drop k block),
          length-drop k block,
          e,
          inside,
        ))
  where
    rest : Bytes
    rest = drop (off + length bytes) block

    written : block' ≡ take (k + n) block ++ (bytes ++ rest)
    written =
        some_injective (sym run ∙ store_eq off bytes block inside)
        ∙ ap (λ o. take o block ++ (bytes ++ rest)) e

-- A write does not change what lies in front of it.
load-store_before :
    (n off : ℕ) (bytes block : Bytes)
    → n ≤ off
    → off + length bytes ≤ length block
    → (block' : Bytes) × (store off bytes block ≡ some block') × (load 0 n block' ≡ load 0 n block)
load-store_before n off bytes block h inside = (
  take off block ++ (bytes ++ drop (off + length bytes) block),
  store_eq off bytes block inside,
  load-append_le 0 n (take off block) (bytes ++ drop (off + length bytes) block) short
      ∙ sym (load-append_le 0 n (take off block) (drop off block) short)
      ∙ ap (load 0 n) (take-drop off block),
)
  where
    short : 0 + n ≤ length (take off block)
    short = omega (arith, length-take off block, h, inside)

pub init-IsReady : IsReady init
unfolding load encode_le
init-IsReady = record { size = refl; within = omega arith; head = refl }

-- enqueue_req accepts a message while there is room, and refuses it otherwise.
pub enqueue_req-IsReady :
    (buf : Bytes) (b : Batcher)
    → IsReady b
    → length buf ≡ msg_size
    → (b' : Batcher) × (enqueue_req buf b ≡ some (ltb b.cur_idx batch_count, b'))
      × IsReady b'
      × (b'.count ≡ b.count)
      × (b'.cur_idx ≡ (if ltb b.cur_idx batch_count then b.cur_idx + 1 else b.cur_idx))
      × (held b' ≡ (if ltb b.cur_idx batch_count then held b ++ buf else held b))
unfolding enqueue_req
enqueue_req-IsReady buf b ready size = elim (Bool-cases (ltb b.cur_idx batch_count)) [
  | inl t ↦
      let (buffer, run, front) =
        load-store_before round_size (round_size + b.cur_idx * msg_size) buf b.buffer (omega arith)
          (room t) in
      (
        record b { buffer = buffer; cur_idx = (b.cur_idx + 1) % u32_mod },
        rw (t, run),
        record {
          size = length-store (round_size + b.cur_idx * msg_size) buf b.buffer run ∙ ready.size;
          within = ground (arith, t);
          head = front ∙ ready.head;
        },
        refl,
        rw t (ground (arith, t)),
        rw t (
            ap (λ n. take n (drop round_size buffer)) (grown t)
            ∙ take-store_behind round_size (b.cur_idx * msg_size)
                (round_size + b.cur_idx * msg_size) buf b.buffer refl (room t) run),
      )
  | inr f ↦ (b, rw f, ready, refl, rw f, rw f)
]
  where
    room :
        ltb b.cur_idx batch_count ≡ true
        → round_size + b.cur_idx * msg_size + length buf ≤ length b.buffer
    room t = ground (arith, t, size, ready.size)

    grown :
        ltb b.cur_idx batch_count ≡ true
        → ((b.cur_idx + 1) % u32_mod) * msg_size ≡ b.cur_idx * msg_size + length buf
    grown t = ground (arith, t, size)

-- empty_buff begins the next round.
pub empty_buff-IsReady :
    (b : Batcher)
    → IsReady b
    → (b' : Batcher) × (empty_buff b ≡ some b')
      × IsReady b'
      × (b'.count ≡ (b.count + 1) % u64_mod)
      × (b'.cur_idx ≡ 0)
unfolding empty_buff
empty_buff-IsReady b ready =
    let n = (b.count + 1) % u64_mod in
    let run =
      store_front (encode_le 8 n) b.buffer (omega (arith, length-encode_le 8 n, ready.size)) in
    let buffer = encode_le 8 n ++ drop (length (encode_le 8 n)) b.buffer in
    (
      record { buffer = buffer; cur_idx = 0; count = n },
      rw run,
      record {
        size = length-store 0 (encode_le 8 n) b.buffer run ∙ ready.size;
        within = omega arith;
        head =
            load_prefix 8 (encode_le 8 n) (drop (length (encode_le 8 n)) b.buffer)
              (sym (length-encode_le 8 n));
      },
      refl,
      refl,
    )

pub enqueue_req_full :
    (buf : Bytes) (b : Batcher)
    → ltb b.cur_idx batch_count ≡ false
    → enqueue_req buf b ≡ some (false, b)
unfolding enqueue_req
enqueue_req_full buf b f = rw f

-- A full batch lies behind the number of the round, and the requests hold all of it but 8 bytes.
pub front-held :
    (b : Batcher)
    → IsReady b
    → b.cur_idx ≡ batch_count
    → take (msg_size * batch_count) (drop 0 b.buffer)
      ≡ encode_le 8 b.count ++ take (msg_size * batch_count - round_size) (held b)
front-held b ready full =
    sym (take-drop round_size (take (msg_size * batch_count) b.buffer))
    ∙ ap₂ ◌++◌ (take-take_add round_size (msg_size * batch_count - round_size) b.buffer ∙ number) (
        drop-take_add round_size (msg_size * batch_count - round_size) b.buffer
        ∙ sym (
            take-take_add (msg_size * batch_count - round_size) round_size
              (drop round_size b.buffer))
        ∙ ap
            (λ n.
              take (msg_size * batch_count - round_size)
                (take (n * msg_size) (drop round_size b.buffer)))
            (sym full))
  where
    number : take round_size b.buffer ≡ encode_le 8 b.count
    number =
        some_injective
          (sym (load_eq 0 round_size b.buffer (omega (arith, ready.size))) ∙ ready.head)
