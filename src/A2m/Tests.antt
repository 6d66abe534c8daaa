-- ===== src/A2m/Tests.antt =====
-- Runs of a2m-single-node/log.h at concrete inputs.
use replication_protos.Prelude.{
  ◌+◌, ◌*◌, ◌%◌, ◌≡◌, refl, true, none, some, [], ◌∷◌, ◌++◌, arith, Bytes, zeros, length, take,
  drop, encode_le, u32_mod,
}
use replication_protos.Attest.{native}
use replication_protos.Attest.Tests.{sum_code, sum_code_size}
use replication_protos.A2m.{
  LogEntry, TrustedLog, regular, entry_size, init, append, a2m_append, a2m_lookup,
}
use replication_protos.A2m.Layout.{Holds, init-Holds}
use replication_protos.A2m.Append.{append-Holds}
use replication_protos.A2m.Chaining.{a2m_append-Holds, a2m_append_short, chained_entry}
use replication_protos.A2m.Lookup.{a2m_lookup_written, a2m_lookup_unwritten}

-- A log of two entries with contexts of 8 bytes.
abbrev empty_log : TrustedLog
empty_log = init 8 (2 * entry_size 8)

empty_log-Holds : Holds 8 empty_log [] 2
empty_log-Holds = init-Holds 8 (2 * entry_size 8)

abbrev uninit : LogEntry
uninit = record { sequencer = 7; context = 1 ∷ 1 ∷ 1 ∷ 1 ∷ 1 ∷ 1 ∷ 1 ∷ 1 ∷ []; c_digest = zeros 32 }

abbrev value : Bytes
value = 3 ∷ 1 ∷ 4 ∷ 1 ∷ 5 ∷ 9 ∷ 2 ∷ 6 ∷ 5 ∷ []

-- The log after a first value.
abbrev entry : LogEntry
entry = record { sequencer = 0; context = take 8 value; c_digest = zeros 32 }

abbrev one_entry : TrustedLog
one_entry = record empty_log {
  mem_log = encode_le 4 0 ++ (take 8 value ++ zeros (32 + 44));
  cur_idx = 1;
}

one_entry-Holds : Holds 8 one_entry (entry ∷ []) 1
unfolding init encode_le
one_entry-Holds = record {
  block = refl;
  count = refl;
  capacity = refl;
  small = omega arith;
  fits = ((refl, refl), tt);
}

append-Holds_example :
    (log' : TrustedLog) × (append 8 uninit one_entry ≡ some (true, log'))
    × Holds 8 log' ((entry ∷ []) ++ (uninit ∷ [])) 0
    × (log'.tail ≡ length {A = LogEntry} (entry ∷ []) * entry_size 8)
append-Holds_example = append-Holds 8 one_entry (entry ∷ []) 0 uninit one_entry-Holds (refl, refl)

a2m_append-Holds_example :
    (log' : TrustedLog) × (a2m_append 8 sum_code native uninit value one_entry ≡ some (true, log'))
    × Holds 8 log' ((entry ∷ []) ++ (chained_entry 8 sum_code sum_code_size native 1 value ∷ [])) 0
    × (log'.tail ≡ length {A = LogEntry} (entry ∷ []) * entry_size 8)
a2m_append-Holds_example =
    a2m_append-Holds 8 sum_code sum_code_size native one_entry (entry ∷ []) 0 uninit value
      one_entry-Holds (refl, refl) (omega arith)

a2m_append_short_example : a2m_append 8 sum_code native uninit (3 ∷ []) one_entry ≡ none
a2m_append_short_example =
    a2m_append_short 8 sum_code sum_code_size native one_entry (entry ∷ []) 0 uninit (3 ∷ [])
      one_entry-Holds (refl, refl) (omega arith)

a2m_lookup_written_example :
    a2m_lookup 8 uninit 0 one_entry
    ≡ some (record {
      w = regular;
      e = record {
        sequencer = entry.sequencer % u32_mod;
        context = take 8 entry.context ++ drop 8 uninit.context;
        c_digest = take 8 entry.c_digest ++ drop 8 uninit.c_digest;
      };
    })
a2m_lookup_written_example =
    a2m_lookup_written 8 one_entry [] entry [] 1 one_entry-Holds uninit (refl, refl) (omega arith)

a2m_lookup_unwritten_example :
    a2m_lookup 8 uninit 1 one_entry
    ≡ some (record {
      w = regular;
      e = record {
        sequencer = 0;
        context = zeros 8 ++ drop 8 uninit.context;
        c_digest = zeros 8 ++ drop 8 uninit.c_digest;
      };
    })
a2m_lookup_unwritten_example =
    a2m_lookup_unwritten 8 one_entry (entry ∷ []) 0 uninit one_entry-Holds (refl, refl)
      (omega arith)
