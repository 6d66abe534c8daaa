-- ===== src/Batch.antt =====
-- `msg_manager`, the batch buffer of cr/msg.h, for any number of messages and any size of a
-- message: the copies of it in rf, bft-cr, bft-pb and trusted-log differ in these two constants.
pub mod Contents
use replication_protos.Prelude.{
  ℕ, ◌+◌, ◌*◌, ◌%◌, Bool, true, false, Option, some, arith, ltb, if◌then◌else◌, ◌>>=◌, Bytes, zeros,
  load, store, u32_mod,
}

pub record Batcher : Type 0 where
  pub buffer : Bytes
  pub cur_idx : ℕ

-- `serialize_batch` returns the buffer itself, whatever `cur_idx` is.
unfoldable pub serialize_batch : Batcher → Bytes
serialize_batch b = b.buffer

unfoldable pub empty_buff : Batcher → Batcher
empty_buff b = record b { cur_idx = 0 }

-- A copy of the `buf_sz` bytes from `buf` on. Another size than a full batch is only reported.
unfoldable pub deserialize : Bytes → ℕ → Option Bytes
deserialize buf buf_sz = load 0 buf_sz buf

module _ (batch_count slot : ℕ) where
  unfoldable pub init : Batcher
  init = record { buffer = zeros (batch_count * slot); cur_idx = 0 }

  -- Another size than that of a message is only reported: the copy is made all the same.
  unfoldable pub enqueue_req : Batcher → Bytes → Option (Bool × Batcher)
  enqueue_req b buf =
      if ltb b.cur_idx batch_count
      then (do
        buffer ← store (b.cur_idx * slot) buf b.buffer
        some (true, record { buffer = buffer; cur_idx = (b.cur_idx + 1) % u32_mod }))
      else some (false, b)
