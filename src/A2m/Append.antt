-- ===== src/A2m/Append.antt =====
-- Appending: the log behaves as a bounded list, and what the chain of digests contains.
use replication_protos.Prelude.{
  ℕ, suc, ◌+◌, ◌-◌, ◌*◌, ◌%◌, ◌≡◌, ap, sym, ◌∙◌, true, false, List, [], ◌∷◌, ◌++◌, append_assoc,
  arith, some, le→leb, gt→leb, Bytes, zeros, length, length-append, All-append, encode_le,
  length-encode_le, u32_mod,
}
use replication_protos.Attest.{hmac_size}
use replication_protos.A2m.{LogEntry, TrustedLog, entry_size, append_entry, append, inc_idx}
use replication_protos.A2m.Layout.{
  entry_bytes, entries_bytes, Fits, Holds, zeros_slot, length-entries_bytes, entries_bytes-append,
  store-zeros, store-zeros_two, store-zeros_three,
}

module _ (ctx_size : ℕ) where
  -- The three writes of an entry into a zeroed slot.
  append_entry_slot :
      (pos : ℕ) (e : LogEntry) (log : TrustedLog) (before after : Bytes)
      → Fits ctx_size e
      → pos ≡ length before
      → log.mem_log ≡ before ++ (zeros (entry_size ctx_size) ++ after)
      → append_entry ctx_size pos e log
        ≡ some (record log { mem_log = before ++ (entry_bytes ctx_size e ++ after); tail = pos })
  unfolding append_entry
  append_entry_slot pos e log before after f at_end block =
      rw
        (
          block,
          store-zeros (encode_le 4 e.sequencer) after (entry_size ctx_size) (omega (arith, word))
              pos before at_end,
          word,
          store-zeros_two e.context after (entry_size ctx_size - 4) (omega (arith, f.0)) (pos + 4)
              before (encode_le 4 e.sequencer) (omega (arith, word)),
          f.0,
          store-zeros_three e.c_digest after (entry_size ctx_size - 4 - ctx_size)
              (omega (arith, f.1)) (pos + (4 + ctx_size)) before (encode_le 4 e.sequencer) e.context
              (omega (arith, word, f.0)),
          f.1,
        )
        (ap (λ m. some (record log { mem_log = before ++ m; tail = pos })) parts)
    where
      word : length (encode_le 4 e.sequencer) ≡ 4
      word = length-encode_le 4 e.sequencer

      pad :
          entry_size ctx_size - 4 - ctx_size - hmac_size
          ≡ entry_size ctx_size - (4 + ctx_size + hmac_size)
      pad = omega arith

      parts :
          encode_le 4 e.sequencer
            ++ (e.context
                ++ (e.c_digest
                    ++ (zeros (entry_size ctx_size - 4 - ctx_size - hmac_size) ++ after)))
          ≡ entry_bytes ctx_size e ++ after
      parts = rw pad (simp append_assoc)

  -- On a log that holds a list of entries and has room, append puts an entry of the right size
  -- behind the others, which stay as they are, uses up one slot, and makes it the tail.
  pub append-Holds :
      (log : TrustedLog) (es : List LogEntry) (free : ℕ) (e : LogEntry)
      → Holds ctx_size log es (suc free)
      → Fits ctx_size e
      → (log' : TrustedLog) × (append ctx_size e log ≡ some (true, log'))
        × Holds ctx_size log' (es ++ (e ∷ [])) free
        × (log'.tail ≡ length es * entry_size ctx_size)
  unfolding append inc_idx
  append-Holds log es free e h f = (
    record log {
      mem_log =
          entries_bytes ctx_size es
          ++ (entry_bytes ctx_size e ++ zeros (free * entry_size ctx_size));
      cur_idx = (log.cur_idx + 1) % u32_mod;
      tail = log.cur_idx * entry_size ctx_size;
    },
    rw (
      gt→leb log.nb_max_entries log.cur_idx (omega (arith, h.capacity, h.count)),
      append_entry_slot (log.cur_idx * entry_size ctx_size) e log (entries_bytes ctx_size es)
          (zeros (free * entry_size ctx_size)) f
          (ap (λ k. k * entry_size ctx_size) h.count
            ∙ sym (length-entries_bytes ctx_size es h.fits))
          (h.block ∙ ap (◌++◌ (entries_bytes ctx_size es)) (zeros_slot ctx_size free)),
    ),
    record {
      block =
          sym (
            append_assoc (entries_bytes ctx_size es) (entry_bytes ctx_size e)
              (zeros (free * entry_size ctx_size)))
          ∙ ap (λ m. m ++ zeros (free * entry_size ctx_size))
              (sym (entries_bytes-append ctx_size es e));
      count = omega (arith, h.count, h.capacity, h.small, length-append {0} es (e ∷ []));
      capacity = omega (arith, h.capacity, length-append {0} es (e ∷ []));
      small = h.small;
      fits = All-append (Fits ctx_size) es (e ∷ []) h.fits (f, tt);
    },
    ap (λ k. k * entry_size ctx_size) h.count,
  )

  -- A full log refuses an entry and stays as it is.
  pub append_full :
      (log : TrustedLog) (es : List LogEntry) (e : LogEntry)
      → Holds ctx_size log es 0
      → append ctx_size e log ≡ some (false, log)
  unfolding append
  append_full log es e h =
      rw (le→leb log.nb_max_entries log.cur_idx (omega (arith, h.capacity, h.count)))
