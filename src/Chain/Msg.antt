-- ===== src/Chain/Msg.antt =====
-- cr/msg.h: the messages, and the scan of a batch for its indexes.
-- An `int` is its bit pattern, a number below 2 ^ 32; where the source's `int` arithmetic would
-- overflow it wraps here.
use replication_protos.Prelude.{
  ℕ, zero, suc, ◌+◌, ◌-◌, ◌*◌, ◌%◌, Option, some, List, [], ◌∷◌, ◌++◌, ◌==◌, if◌then◌else◌, ◌>>=◌,
  Bytes, load, take, drop, encode_le, decode_le, u32_mod, minus_one,
}

pub record Header : Type 0 where
  pub src_node : ℕ
  pub dest_node : ℕ
  pub seq_idx : ℕ
  pub msg_size : ℕ

pub record Msg : Type 0 where
  pub hdr : Header
  pub key : Bytes
  pub value : Bytes

-- `cmt_msg`
pub record CmtMsg : Type 0 where
  pub hdr : Header
  pub s_cmt_idx : ℕ
  pub e_cmt_idx : ℕ

abbrev pub key_sz : ℕ
key_sz = 8

abbrev pub value_sz : ℕ
value_sz = 40

-- `sizeof(msg::header)`, `sizeof(msg)`: no padding.
abbrev pub header_size : ℕ
header_size = 16

abbrev pub msg_size : ℕ
msg_size = 64

abbrev pub batch_count : ℕ
batch_count = 16

-- The objects as they lie in memory.
unfoldable pub header_bytes : Header → Bytes
header_bytes h =
    encode_le 4 h.src_node
    ++ (encode_le 4 h.dest_node ++ (encode_le 4 h.seq_idx ++ encode_le 4 h.msg_size))

unfoldable pub msg_bytes : Msg → Bytes
msg_bytes m = header_bytes m.hdr ++ (m.key ++ m.value)

unfoldable pub cmt_msg_bytes : CmtMsg → Bytes
cmt_msg_bytes m = header_bytes m.hdr ++ (encode_le 8 m.s_cmt_idx ++ encode_le 8 m.e_cmt_idx)

abbrev pub zero_header : Header
zero_header = record { src_node = 0; dest_node = 0; seq_idx = 0; msg_size = 0 }

-- `hdr.seq_idx` of a header that was copied out of a batch: the third word.
unfoldable pub seq_of : Bytes → ℕ
seq_of hdr = decode_le (take 4 (drop 8 hdr))

-- The locals of `parse_indexes`. A mismatch is reported with the index expected and the one found.
pub record Indexes : Type 0 where
  pub min_idx : ℕ
  pub max_idx : ℕ
  pub prev_idx : ℕ
  pub mismatches : List (ℕ × ℕ)

abbrev pub no_indexes : Indexes
no_indexes = record {
  min_idx = minus_one;
  max_idx = minus_one;
  prev_idx = minus_one;
  mismatches = [];
}

-- The tests of the loop's body, at round `i` of `count`.
unfoldable pub note_seq : ℕ → ℕ → ℕ → Indexes → Indexes
note_seq count i seq s =
    if i == 0
    then record s { min_idx = seq; prev_idx = (seq + u32_mod - 1) % u32_mod }
    else if i == count - 1
    then record s { max_idx = seq }
    else if (s.prev_idx + 1) % u32_mod == seq
    then s
    else record s { mismatches = s.mismatches ++ (((s.prev_idx + 1) % u32_mod, seq) ∷ []) }

-- `prev_idx++`
unfoldable pub advance : Indexes → Indexes
advance s = record s { prev_idx = (s.prev_idx + 1) % u32_mod }

-- `left` more rounds, from round `i` on.
unfoldable pub parse_from : ℕ → ℕ → ℕ → Bytes → Indexes → Option Indexes
parse_from count zero i msgs s = some s
parse_from count (suc left) i msgs s = do
  hdr ← load (i * msg_size) header_size msgs
  parse_from count left (suc i) msgs (advance (note_seq count i (seq_of hdr) s))

-- `parse_indexes` ignores its argument `sz`: it reads `batch_count` headers from every block.
unfoldable pub parse_indexes : Bytes → Option Indexes
parse_indexes msgs = parse_from batch_count batch_count 0 msgs no_indexes
