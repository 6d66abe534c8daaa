-- ===== src/Tlog/Log.antt =====
-- trusted-log/log.h: `trusted_log<CTX_SIZE>`, the log as one block of memory. Unlike that of
-- a2m-single-node an entry carries the authenticator of the message that it records.
use replication_protos.Prelude.{
  ℕ, ◌+◌, ◌*◌, ◌/◌, ◌%◌, Bool, true, false, Option, some, List, [], ◌∷◌, leb, if◌then◌else◌, ◌>>=◌,
  Bytes, zeros, load, store_fields, copy_fields, encode_le, u32_mod,
}
use replication_protos.Attest.{hmac_size}

pub record LogEntry : Type 0 where
  pub sequencer : ℕ
  pub context : Bytes
  pub c_digest : Bytes
  pub authenticator : Bytes

pub record TrustedLog : Type 0 where
  pub mem_log : Bytes
  pub nb_max_entries : ℕ
  pub cur_idx : ℕ
  pub log_size : ℕ
  -- The offset of `tail` in `mem_log`.
  pub tail : ℕ

-- `sizeof(log_entry)`: the fields, rounded up to the alignment of `sequencer`.
abbrev pub entry_size : ℕ → ℕ
entry_size ctx_size = (4 + ctx_size + hmac_size + hmac_size + 3) / 4 * 4

abbrev pub entry_fields : LogEntry → List Bytes
entry_fields e = encode_le 4 e.sequencer ∷ e.context ∷ e.c_digest ∷ e.authenticator ∷ []

unfoldable pub get_log_size : TrustedLog → ℕ
get_log_size log = log.cur_idx

unfoldable pub inc_idx : TrustedLog → TrustedLog
inc_idx log = record log { cur_idx = (log.cur_idx + 1) % u32_mod }

module _ (ctx_size : ℕ) where
  unfoldable pub init : ℕ → TrustedLog
  init log_sz =
      let n = log_sz / entry_size ctx_size % u32_mod in
      record {
        mem_log = zeros (n * entry_size ctx_size);
        nb_max_entries = n;
        cur_idx = 0;
        log_size = log_sz % u32_mod;
        tail = 0;
      }

  -- `get_log_entry_at_idx`, as an offset.
  unfoldable pub get_entry_at : ℕ → ℕ
  get_entry_at idx = idx * entry_size ctx_size

  -- `get_cur_log_idx`, as an offset.
  unfoldable pub get_cur_log_idx : TrustedLog → ℕ
  get_cur_log_idx log = log.cur_idx * entry_size ctx_size

  -- It reads the number of the entry and gives the offset of its context; nothing is printed.
  unfoldable pub print_entry_at : ℕ → TrustedLog → Option ℕ
  unfolding get_entry_at
  print_entry_at idx log = do
    sequencer ← load (get_entry_at idx) 4 log.mem_log
    some (get_entry_at idx + 4)

  unfoldable pub append_entry : ℕ → LogEntry → TrustedLog → Option TrustedLog
  append_entry pos entry log = do
    mem_log ← store_fields pos (entry_fields entry) log.mem_log
    some (record log { mem_log = mem_log; tail = pos })

  unfoldable pub append : LogEntry → TrustedLog → Option (Bool × TrustedLog)
  unfolding get_cur_log_idx
  append entry log =
      if leb log.nb_max_entries log.cur_idx
      then some (false, log)
      else (do log' ← append_entry (get_cur_log_idx log) entry log; some (true, inc_idx log'))

  -- The sizes of the fields.
  abbrev pub field_sizes : List ℕ
  field_sizes = 4 ∷ ctx_size ∷ hmac_size ∷ hmac_size ∷ []

  unfoldable pub serialize_entry : Bytes → ℕ → TrustedLog → Option Bytes
  unfolding get_entry_at
  serialize_entry buf idx log = copy_fields (get_entry_at idx) 0 field_sizes log.mem_log buf

  unfoldable pub serialize_tail : Bytes → TrustedLog → Option Bytes
  serialize_tail buf log = copy_fields log.tail 0 field_sizes log.mem_log buf
