-- ===== src/Batch/Contents.antt =====
-- A batcher seen as the bytes of the messages that it holds.
use replication_protos.Prelude.{
  ℕ, ◌+◌, ◌*◌, ◌%◌, ◌≤◌, ◌<◌, ◌≡◌, ap, sym, ◌∙◌, true, false, some, ◌++◌, append_assoc, arith,
  lt→ltb, ge→ltb, Bytes, store, load_eq, store_eq, length, length-store, length-append, length-take,
  length-replicate, take, drop, take_all, take-append_exact, u32_mod,
}
use replication_protos.Batch.{Batcher, init, enqueue_req, empty_buff, deserialize}

-- The messages accepted since the buffer was last emptied, one behind the other.
abbrev pub contents : ℕ → Batcher → Bytes
contents slot b = take (b.cur_idx * slot) b.buffer

pub record IsValid (batch_count slot : ℕ) (b : Batcher) : Type 0 where
  pub buffer_size : length b.buffer ≡ batch_count * slot
  pub within : b.cur_idx ≤ batch_count
  pub small : batch_count < u32_mod

pub deserialize_all : (buf : Bytes) → deserialize buf (length buf) ≡ some buf
unfolding deserialize
deserialize_all buf =
    load_eq 0 (length buf) buf (omega arith) ∙ ap some (take_all (length buf) buf (omega arith))

module _ (batch_count slot : ℕ) where
  pub init-IsValid : batch_count < u32_mod → IsValid batch_count slot (init batch_count slot)
  unfolding init
  init-IsValid h = record {
    buffer_size = length-replicate (batch_count * slot) 0;
    within = omega arith;
    small = h;
  }

  pub empty_buff-IsValid :
      {b : Batcher} → IsValid batch_count slot b → IsValid batch_count slot (empty_buff b)
  unfolding empty_buff
  empty_buff-IsValid v = record {
    buffer_size = v.buffer_size;
    within = omega arith;
    small = v.small;
  }

  -- What an accepted message does.
  pub record Accepted (b : Batcher) (buf : Bytes) (b' : Batcher) : Type 0 where
    pub result : enqueue_req batch_count slot b buf ≡ some (true, b')
    pub valid : IsValid batch_count slot b'
    pub count : b'.cur_idx ≡ b.cur_idx + 1
    pub appended : contents slot b' ≡ contents slot b ++ buf

  -- A well-formed batcher with room accepts a message of the slot's size: the messages that it
  -- holds become the old ones followed by the new one, the count goes up by one, and the batcher
  -- stays well formed.
  pub enqueue_req-Accepted :
      (b : Batcher) (buf : Bytes)
      → IsValid batch_count slot b
      → length buf ≡ slot
      → b.cur_idx < batch_count
      → (b' : Batcher) × Accepted b buf b'
  unfolding enqueue_req
  enqueue_req-Accepted b buf v e h = (
    record { buffer = stored; cur_idx = (b.cur_idx + 1) % u32_mod },
    record {
      result = rw (lt→ltb b.cur_idx batch_count h, store_eq (b.cur_idx * slot) buf b.buffer fits);
      valid = record {
        buffer_size = length-store (b.cur_idx * slot) buf b.buffer written ∙ v.buffer_size;
        within = omega (arith, v.small);
        small = v.small;
      };
      count = omega (arith, v.small);
      appended = appended_lem;
    },
  )
    where
      fits : b.cur_idx * slot + length buf ≤ length b.buffer
      fits = grind (arith, v.buffer_size)

      stored : Bytes
      stored =
          take (b.cur_idx * slot) b.buffer ++ (buf ++ drop (b.cur_idx * slot + length buf) b.buffer)

      written : store (b.cur_idx * slot) buf b.buffer ≡ some stored
      written = store_eq (b.cur_idx * slot) buf b.buffer fits

      next : (b.cur_idx + 1) % u32_mod ≡ b.cur_idx + 1
      next = omega (arith, v.small)

      size : (b.cur_idx + 1) % u32_mod * slot ≡ length (take (b.cur_idx * slot) b.buffer ++ buf)
      size =
          rw
            (
              next,
              length-append (take (b.cur_idx * slot) b.buffer) buf,
              length-take (b.cur_idx * slot) b.buffer,
              e,
            )
            (grind (arith, fits, e))

      appended_lem :
          take ((b.cur_idx + 1) % u32_mod * slot) stored ≡ take (b.cur_idx * slot) b.buffer ++ buf
      appended_lem =
          ap (take ((b.cur_idx + 1) % u32_mod * slot)) (
            sym (
              append_assoc (take (b.cur_idx * slot) b.buffer) buf
                (drop (b.cur_idx * slot + length buf) b.buffer)))
          ∙ take-append_exact ((b.cur_idx + 1) % u32_mod * slot)
              (take (b.cur_idx * slot) b.buffer ++ buf)
              (drop (b.cur_idx * slot + length buf) b.buffer) size

  pub enqueue_req_full :
      (b : Batcher) (buf : Bytes)
      → b.cur_idx ≡ batch_count
      → enqueue_req batch_count slot b buf ≡ some (false, b)
  unfolding enqueue_req
  enqueue_req_full b buf h = rw (ge→ltb b.cur_idx batch_count (omega arith))
