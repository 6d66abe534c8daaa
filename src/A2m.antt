-- ===== src/A2m.antt =====
-- a2m-single-node/log.h: `trusted_log<CTX_SIZE>`, an attested append-only log in one block of memory.
-- `ctx_size` is the template's `CTX_SIZE`. A `log_entry` that the source leaves uninitialised is an
-- argument, `uninit`. Printing is left out.
pub mod Layout
pub mod Append
pub mod Chaining
pub mod Lookup
mod Tests
use replication_protos.Prelude.{
  ℕ, ◌+◌, ◌-◌, ◌*◌, ◌/◌, ◌%◌, Bool, true, false, Option, none, some, List, ◌++◌, arith, ltb, leb,
  if◌then◌else◌, ◌>>=◌, Bytes, zeros, load, store, encode_le, decode_le, length, take, u32_mod,
}
use replication_protos.Attest.{Platform, hmac_size, get_attestation}

pub record LogEntry : Type 0 where
  pub sequencer : ℕ
  pub context : Bytes
  pub c_digest : Bytes

pub record TrustedLog : Type 0 where
  pub mem_log : Bytes
  pub nb_max_entries : ℕ
  pub cur_idx : ℕ
  pub log_size : ℕ
  -- The offset of `tail` in `mem_log`.
  pub tail : ℕ

pub data Mode : Type 0 where
  unassigned forgotten regular : Mode

-- `lookup_attestation`
pub record Attestation : Type 0 where
  pub w : Mode
  pub e : LogEntry

-- `sizeof(log_entry)`: the fields, rounded up to the alignment of `sequencer`.
abbrev pub entry_size : ℕ → ℕ
entry_size ctx_size = (4 + ctx_size + hmac_size + 3) / 4 * 4

-- `get_log_size`
unfoldable pub get_log_size : TrustedLog → ℕ
get_log_size log = log.cur_idx

unfoldable pub inc_idx : TrustedLog → TrustedLog
inc_idx log = record log { cur_idx = (log.cur_idx + 1) % u32_mod }

module _ (ctx_size : ℕ) where
  unfoldable pub init : ℕ → TrustedLog
  init log_sz =
      let n = log_sz / entry_size ctx_size % u32_mod in
      record {
        mem_log = zeros (n * entry_size ctx_size);
        nb_max_entries = n;
        cur_idx = 0;
        log_size = log_sz % u32_mod;
        tail = 0;
      }

  -- `get_log_entry_at_idx`, as an offset.
  unfoldable pub get_entry_at : ℕ → ℕ
  get_entry_at idx = idx * entry_size ctx_size

  -- The digest field of the slot at `cur_idx`.
  unfoldable pub get_tail_digest : TrustedLog → Option Bytes
  get_tail_digest log =
      load (log.cur_idx * entry_size ctx_size + (4 + ctx_size)) hmac_size log.mem_log

  unfoldable pub append_entry : ℕ → LogEntry → TrustedLog → Option TrustedLog
  append_entry pos entry log = do
    m1 ← store pos (encode_le 4 entry.sequencer) log.mem_log
    m2 ← store (pos + 4) entry.context m1
    m3 ← store (pos + (4 + ctx_size)) entry.c_digest m2
    some (record log { mem_log = m3; tail = pos })

  unfoldable pub append : LogEntry → TrustedLog → Option (Bool × TrustedLog)
  append entry log = if leb log.nb_max_entries log.cur_idx then some (false, log) else (do
    log' ← append_entry (log.cur_idx * entry_size ctx_size) entry log
    some (true, inc_idx log'))

  -- `serialize_entry`, and `serialize_tail` with the offset of the tail.
  unfoldable pub serialize_at : ℕ → Bytes → TrustedLog → Option Bytes
  serialize_at pos buf log = do
    sequencer ← load pos 4 log.mem_log
    b1 ← store 0 sequencer buf
    context ← load (pos + 4) ctx_size log.mem_log
    b2 ← store 4 context b1
    c_digest ← load (pos + (4 + ctx_size)) hmac_size log.mem_log
    store (4 + ctx_size) c_digest b2

  unfoldable pub serialize_entry : Bytes → ℕ → TrustedLog → Option Bytes
  unfolding serialize_at get_entry_at
  serialize_entry buf idx log = serialize_at (get_entry_at idx) buf log

  unfoldable pub serialize_tail : Bytes → TrustedLog → Option Bytes
  unfolding serialize_at
  serialize_tail buf log = serialize_at log.tail buf log

  -- `sizeof(log_entry::CtxSize)` and `sizeof(log_entry::HashSize)` are the size of a `size_t`, so 8
  -- bytes of the context and of the digest are copied. An index is never below 0.
  unfoldable pub a2m_lookup : LogEntry → ℕ → TrustedLog → Option Attestation
  unfolding get_log_size get_entry_at
  a2m_lookup uninit idx log =
      if ltb (get_log_size log) idx then some (record { w = unassigned; e = uninit }) else (do
        let pos = get_entry_at idx
        sequencer ← load pos 4 log.mem_log
        some_context ← load (pos + 4) 8 log.mem_log
        context ← store 0 some_context uninit.context
        some_digest ← load (pos + (4 + ctx_size)) 8 log.mem_log
        c_digest ← store 0 some_digest uninit.c_digest
        some (record {
          w = regular;
          e = record { sequencer = decode_le sequencer; context = context; c_digest = c_digest };
        }))

  -- A longer value is cut to `ctx_size`. The digest goes behind `ctx_size` bytes of a buffer that has
  -- room for the value's own length.
  unfoldable pub a2m_append :
      (Bytes → Bytes → Bytes)
      → Platform
      → LogEntry
      → Bytes
      → TrustedLog
      → Option (Bool × TrustedLog)
  unfolding get_log_size get_tail_digest
  a2m_append openssl platform uninit value log =
      if leb log.nb_max_entries log.cur_idx then some (false, log) else (do
        let sequencer = get_log_size log
        let len = if ltb ctx_size (length value) then ctx_size else length value
        head ← load 0 len value
        context ← store 0 head uninit.context
        t1 ← store 0 (encode_le 4 sequencer) (zeros (hmac_size + len + 4))
        part ← load 0 len context
        t2 ← store 4 part t1
        tail_digest ← get_tail_digest log
        t3 ← store (4 + ctx_size) tail_digest t2
        let (digest, d_len) = get_attestation openssl platform t3
        new_digest ← load 0 d_len digest
        c_digest ← store 0 new_digest uninit.c_digest
        append (record { sequencer = sequencer; context = context; c_digest = c_digest }) log)
