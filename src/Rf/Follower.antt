-- ===== src/Rf/Follower.antt =====
-- What a follower of rf/main.cc answers.
use replication_protos.Prelude.{
  ℕ, ◌+◌, ◌-◌, ◌*◌, ◌%◌, ◌≤◌, ◌<◌, ◌≡◌, refl, ap, ◌∙◌, some, [], ◌∷◌, ◌++◌, arith, Bytes, load,
  load_eq, take, drop, length, encode_le, decode-encode_u64, decode-encode_u32, u32_mod, u64_mod,
  minus_one, sign_extend,
}
use replication_protos.Rpc.{reply}
use replication_protos.Batch.Contents.{deserialize_all}
use replication_protos.Chain.Msg.{
  Indexes, header_bytes, header_size, msg_bytes, msg_size, no_indexes, parse_from, advance, seq_of,
}
use replication_protos.Chain.Parse.{parse_from_total, note_seq_first}
use replication_protos.Rf.Node.{
  AppContext, cmt_msg_bytes, ack_msg, msgs_num, parse_indexes, req_handler_prp, req_handler_cmt,
  broadcast_msg, e_idx_of,
}

msgs_num-le : (sz : ℕ) → msgs_num sz * msg_size ≤ sz
unfolding msgs_num
msgs_num-le sz = grind arith

-- parse_indexes of rf/msg.h returns a result on a batch of any size: it reads only the messages
-- that the size leaves room for.
pub parse_indexes_any : (msgs : Bytes) → (r : Indexes) × (parse_indexes msgs (length msgs) ≡ some r)
unfolding parse_indexes
parse_indexes_any msgs =
    parse_from_total (msgs_num (length msgs)) (msgs_num (length msgs)) 0 msgs no_indexes
      (omega (arith, msgs_num-le (length msgs)))

msgs_num_one : (sz : ℕ) → msg_size ≤ sz → sz < 2 * msg_size → msgs_num sz ≡ 1
unfolding msgs_num
msgs_num_one sz h k = ground arith

parse_indexes_one :
    (msgs : Bytes)
    → msg_size ≤ length msgs
    → length msgs < 2 * msg_size
    → (first prev : ℕ) × (parse_indexes msgs (length msgs)
        ≡ some (record { min_idx = first; max_idx = minus_one; prev_idx = prev; mismatches = [] }))
unfolding parse_indexes parse_from advance
parse_indexes_one msgs h k = (
  seq_of (take header_size (drop 0 msgs)),
  ((seq_of (take header_size (drop 0 msgs)) + u32_mod - 1) % u32_mod + 1) % u32_mod,
  rw (
    msgs_num_one (length msgs) h k,
    load_eq 0 header_size msgs (omega (arith, h)),
    note_seq_first 1 (seq_of (take header_size (drop 0 msgs))) no_indexes,
  ),
)

-- A follower of rf/main.cc that receives a batch of one message, of 64 to 127 bytes, acknowledges
-- the index 2^64-1 whatever index the message has, and counts.
pub req_handler_prp_single :
    (b : Bytes) (c : AppContext)
    → msg_size ≤ length b
    → length b < 2 * msg_size
    → req_handler_prp b c
      ≡ some (record c {
        prp_count = (c.prp_count + 1) % u64_mod;
        trace = c.trace ++ (reply (cmt_msg_bytes (ack_msg c.node_id (u64_mod - 1))) ∷ []);
      })
unfolding req_handler_prp sign_extend
req_handler_prp_single b c h k =
    let (first, prev, e) = parse_indexes_one b h k in rw (deserialize_all b, e)

-- A commit of the leader.
load_seq :
    (src k : ℕ) → load 8 4 (msg_bytes (broadcast_msg src k)) ≡ some (encode_le 4 (k % u32_mod))
unfolding load msg_bytes header_bytes broadcast_msg encode_le
load_seq src k = refl

load_e_idx : (node e : ℕ) → load 24 8 (cmt_msg_bytes (ack_msg node e)) ≡ some (encode_le 8 e)
unfolding load cmt_msg_bytes ack_msg header_bytes encode_le
load_e_idx node e = refl

pub e_idx_of-ack_msg :
    (node e : ℕ) → e_idx_of (cmt_msg_bytes (ack_msg node e)) ≡ some (e % u64_mod % u32_mod)
unfolding e_idx_of
e_idx_of-ack_msg node e = rw (load_e_idx node e, decode-encode_u64 e)

-- A follower of rf/main.cc answers the commit message that send_cmt builds for an index k by one
-- response, from which the leader reads k modulo 2^32; it counts and changes nothing else.
pub req_handler_cmt-send_cmt :
    (src k : ℕ) (c : AppContext)
    → (answer : Bytes) × (req_handler_cmt (msg_bytes (broadcast_msg src k)) c
        ≡ some (record c {
          cmt_count = (c.cmt_count + 1) % u64_mod;
          trace = c.trace ++ (reply answer ∷ []);
        }))
      × (e_idx_of answer ≡ some (k % u32_mod))
unfolding req_handler_cmt
req_handler_cmt-send_cmt src k c = (
  cmt_msg_bytes (ack_msg c.node_id (k % u32_mod)),
  rw (load_seq src k, decode-encode_u32 (k % u32_mod), mod_twice),
  e_idx_of-ack_msg c.node_id (k % u32_mod) ∙ ap some (omega arith),
)
  where
    mod_twice : k % u32_mod % u32_mod ≡ k % u32_mod
    mod_twice = omega arith
