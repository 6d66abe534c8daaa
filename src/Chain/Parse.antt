-- ===== src/Chain/Parse.antt =====
-- What `parse_indexes` finds in a batch, and when it reads outside the block.
use replication_protos.Prelude.{
  ℕ, zero, suc, ◌+◌, ◌-◌, ◌*◌, ◌%◌, ◌≤◌, ◌<◌, ◌≡◌, ◌≢◌, refl, ap, sym, ◌∙◌, none, some, [], ◌++◌,
  append-nil, append_assoc, arith, >>=-eq-none, Bytes, load, load_prefix, load-skip, load_fault,
  load_eq, length, length-append, take, drop, encode_le, decode_le, u32_mod,
}
use native.Mathlib.Nat.{add-zero}
use replication_protos.Chain.Msg.{
  Header, Msg, Indexes, header_bytes, msg_bytes, header_size, msg_size, batch_count, seq_of,
  no_indexes, note_seq, advance, parse_from, parse_indexes,
}
use replication_protos.Chain.Node.{request_msg}

-- The messages of the requests `j`, …, `j + n - 1` one behind the other.
abbrev pub stream : ℕ → ℕ → ℕ → ℕ → Bytes
stream src dest j zero = []
stream src dest j (suc n) = msg_bytes (request_msg src dest j) ++ stream src dest (suc j) n

pub length-request_msg : (src dest j : ℕ) → length (msg_bytes (request_msg src dest j)) ≡ msg_size
unfolding msg_bytes request_msg header_bytes encode_le
length-request_msg src dest j = refl

pub stream-append :
    (src dest j n : ℕ)
    → stream src dest j (suc n) ≡ stream src dest j n ++ msg_bytes (request_msg src dest (j + n))
stream-append src dest j zero =
    append-nil (msg_bytes (request_msg src dest j))
    ∙ ap (λ k. msg_bytes (request_msg src dest k)) (omega arith)
stream-append src dest j (suc n) =
    ap (◌++◌ (msg_bytes (request_msg src dest j))) (stream-append src dest (suc j) n)
    ∙ sym (
        append_assoc (msg_bytes (request_msg src dest j)) (stream src dest (suc j) n)
          (msg_bytes (request_msg src dest (suc j + n))))
    ∙ ap (λ k. stream src dest j (suc n) ++ msg_bytes (request_msg src dest k)) (omega arith)

pub length-stream : (src dest j n : ℕ) → length (stream src dest j n) ≡ n * msg_size
length-stream src dest j zero = refl
length-stream src dest j (suc n) = omega (
  arith,
  length-append {0} (msg_bytes (request_msg src dest j)) (stream src dest (suc j) n),
  length-request_msg src dest j,
  length-stream src dest (suc j) n,
)

length-header_bytes : (h : Header) → length (header_bytes h) ≡ header_size
unfolding header_bytes encode_le
length-header_bytes h = refl

seq_of-header_bytes : (h : Header) → seq_of (header_bytes h) ≡ h.seq_idx % u32_mod
unfolding seq_of header_bytes encode_le decode_le
seq_of-header_bytes h = omega arith

load_first :
    (m : Msg) (rest : Bytes) → load 0 header_size (msg_bytes m ++ rest) ≡ some (header_bytes m.hdr)
unfolding msg_bytes
load_first m rest =
    ap (load 0 header_size) (append_assoc (header_bytes m.hdr) (m.key ++ m.value) rest)
    ∙ load_prefix header_size (header_bytes m.hdr) ((m.key ++ m.value) ++ rest)
        (sym (length-header_bytes m.hdr))

-- The header at round `i` of a batch is that of request `j + i`.
load-stream :
    (src dest i j n : ℕ)
    → i < n
    → load (i * msg_size) header_size (stream src dest j n)
      ≡ some (header_bytes (request_msg src dest (j + i)).hdr)
load-stream src dest i j zero h = absurd (omega arith)
load-stream src dest zero j (suc n) h =
    load_first (request_msg src dest j) (stream src dest (suc j) n)
    ∙ ap (λ k. some (header_bytes (request_msg src dest k).hdr)) (omega arith)
load-stream src dest (suc i) j (suc n) h =
    ap (λ o. load o header_size (stream src dest j (suc n))) (omega arith)
    ∙ load-skip msg_size (i * msg_size) header_size (msg_bytes (request_msg src dest j))
        (stream src dest (suc j) n) (sym (length-request_msg src dest j))
    ∙ load-stream src dest i (suc j) n (omega arith)
    ∙ ap (λ k. some (header_bytes (request_msg src dest k).hdr)) (omega arith)

note_seq_last :
    (count i seq : ℕ) (s : Indexes)
    → suc i ≡ count - 1
    → note_seq count (suc i) seq s ≡ record s { max_idx = seq }
unfolding note_seq
note_seq_last count i seq s e = ground arith

note_seq_next :
    (count i seq : ℕ) (s : Indexes)
    → suc i ≢ count - 1
    → (s.prev_idx + 1) % u32_mod ≡ seq
    → note_seq count (suc i) seq s ≡ s
unfolding note_seq
note_seq_next count i seq s n e = ground arith

seq_of-request : (src dest k : ℕ) → seq_of (header_bytes (request_msg src dest k).hdr) ≡ k % u32_mod
unfolding request_msg
seq_of-request src dest k = omega (arith, seq_of-header_bytes (request_msg src dest k).hdr)

-- The rounds after the first, on a batch of `count` consecutive indexes.
parse_from-stream :
    (src dest j count left i : ℕ) (s : Indexes)
    → suc i + suc left ≡ count
    → s.prev_idx ≡ (j + i) % u32_mod
    → parse_from count (suc left) (suc i) (stream src dest j count) s
      ≡ some (record {
        min_idx = s.min_idx;
        max_idx = (j + count - 1) % u32_mod;
        prev_idx = (j + count - 1) % u32_mod;
        mismatches = s.mismatches;
      })
unfolding parse_from advance
parse_from-stream src dest j count zero i s e p =
    rw
      (
        load-stream src dest (suc i) j count (omega arith),
        note_seq_last count i (seq_of (header_bytes (request_msg src dest (j + suc i)).hdr)) s
            (omega arith),
        seq_of-request src dest (j + suc i),
      )
      (ground arith)
parse_from-stream src dest j count (suc left) i s e p =
    rw
      (
        load-stream src dest (suc i) j count (omega arith),
        note_seq_next count i (seq_of (header_bytes (request_msg src dest (j + suc i)).hdr)) s
            (omega arith) (omega (arith, seq_of-request src dest (j + suc i))),
      )
      (parse_from-stream src dest j count left (suc i) (advance s) (omega arith) (omega arith))

-- The block holds the last of `left` headers from round `i` on.
pub parse_from_total :
    (count left i : ℕ) (msgs : Bytes) (s : Indexes)
    → (i + left) * msg_size ≤ length msgs + (msg_size - header_size)
    → (r : Indexes) × (parse_from count left i msgs s ≡ some r)
unfolding parse_from
parse_from_total count zero i msgs s h = (s, refl)
parse_from_total count (suc left) i msgs s h =
    rw (load_eq (i * msg_size) header_size msgs (omega arith)) (
      parse_from_total count left (suc i) msgs
        (advance (note_seq count i (seq_of (take header_size (drop (i * msg_size) msgs))) s))
        (omega arith))

parse_from_fault :
    (count left i : ℕ) (msgs : Bytes) (s : Indexes)
    → length msgs + (msg_size - header_size) < (i + suc left) * msg_size
    → parse_from count (suc left) i msgs s ≡ none
unfolding parse_from
parse_from_fault count zero i msgs s h =
    rw (load_fault (i * msg_size) header_size msgs (omega arith))
parse_from_fault count (suc left) i msgs s h =
    >>=-eq-none (load (i * msg_size) header_size msgs) _ λ hdr.
      parse_from_fault count left (suc i) msgs (advance (note_seq count i (seq_of hdr) s))
        (omega arith)

pub note_seq_first :
    (count seq : ℕ) (s : Indexes)
    → note_seq count 0 seq s ≡ record s { min_idx = seq; prev_idx = (seq + u32_mod - 1) % u32_mod }
unfolding note_seq
note_seq_first count seq s = refl

parse_from_start :
    (src dest j count left : ℕ)
    → suc (suc left) ≡ count
    → parse_from count (suc (suc left)) 0 (stream src dest j count) no_indexes
      ≡ some (record {
        min_idx = j % u32_mod;
        max_idx = (j + count - 1) % u32_mod;
        prev_idx = (j + count - 1) % u32_mod;
        mismatches = [];
      })
unfolding parse_from advance
parse_from_start src dest j count left e =
    rw
      (
        load-stream src dest 0 j count (omega arith),
        note_seq_first count (seq_of (header_bytes (request_msg src dest (j + 0)).hdr)) no_indexes,
        seq_of-request src dest (j + 0),
        add-zero,
      )
      (parse_from-stream src dest j count left 0 _ (omega arith) (omega arith))

-- parse_indexes of 16 messages with consecutive indexes from j on returns the first and the last
-- index modulo 2^32 and reports no mismatch.
pub parse_indexes-stream :
    (src dest j : ℕ)
    → parse_indexes (stream src dest j batch_count)
      ≡ some (record {
        min_idx = j % u32_mod;
        max_idx = (j + 15) % u32_mod;
        prev_idx = (j + 15) % u32_mod;
        mismatches = [];
      })
unfolding parse_indexes
parse_indexes-stream src dest j =
    parse_from_start src dest j batch_count 14 refl
    ∙ ap (λ m. some (record { min_idx = j % u32_mod; max_idx = m; prev_idx = m; mismatches = [] }))
        (omega arith)

pub parse_indexes_short : (msgs : Bytes) → length msgs < 976 → parse_indexes msgs ≡ none
unfolding parse_indexes
parse_indexes_short msgs h = parse_from_fault batch_count 15 0 msgs no_indexes (omega arith)

-- parse_indexes returns a result on every batch of at least 976 bytes, 15 messages and a header.
pub parse_indexes_total :
    (msgs : Bytes) → 976 ≤ length msgs → (r : Indexes) × (parse_indexes msgs ≡ some r)
unfolding parse_indexes
parse_indexes_total msgs h =
    parse_from_total batch_count batch_count 0 msgs no_indexes (omega arith)
