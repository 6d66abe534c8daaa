-- ===== src/Pb/Format.antt =====
-- bft-pb/msg_format.h: the acknowledgement, which has no command. The requests, and the readers of an
-- acknowledgement's fields, are copies of those of trusted-log/msg_format.h.
use replication_protos.Prelude.{ℕ, ◌+◌, Option, ◌>>=◌, Bytes, store, encode_le}
use replication_protos.Tlog.Format.{ack_size}

-- `sizeof(ack_msg)`, with 3 bytes of padding behind `output`.
abbrev pub ack_msg_size : ℕ
ack_msg_size = 60

pub record AckMsg : Type 0 where
  pub ack : Bytes
  pub output : Bytes
  pub cmt : ℕ
  pub sender : ℕ
  pub state : Bytes

-- The offset advances by 4 over the output, which has 16 bytes: the index and the sender overwrite it.
-- The state is not copied.
unfoldable pub memcpy_ack_into_buffer : AckMsg → Bytes → Option Bytes
memcpy_ack_into_buffer msg buf = do
  b1 ← store 0 msg.ack buf
  b2 ← store ack_size msg.output b1
  b3 ← store (ack_size + 4) (encode_le 4 msg.cmt) b2
  store (ack_size + 4 + 4) (encode_le 4 msg.sender) b3
