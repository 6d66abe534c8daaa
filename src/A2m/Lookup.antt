-- ===== src/A2m/Lookup.antt =====
-- What `serialize_entry` and `a2m_lookup` (a2m-single-node/log.h) read back.
use replication_protos.Prelude.{
  ℕ, suc, ◌+◌, ◌*◌, ◌%◌, ◌≤◌, ◌≡◌, ap, sym, ◌∙◌, List, ◌∷◌, ◌++◌, append-nil, arith, some, ge→ltb,
  Bytes, zeros, load, load-append_le, load-skip, load_prefix, load_eq, All-split, store_front,
  store_behind, store_behind_two, take, take_all, drop, drop_all, length, length-append,
  length-take, length-drop, encode_le, decode_le, length-encode_le, decode-encode_u32, u32_mod,
}
use replication_protos.Attest.{hmac_size}
use replication_protos.A2m.{
  LogEntry, TrustedLog, regular, entry_size, a2m_lookup, serialize_entry, serialize_at,
  get_entry_at, get_log_size,
}
use replication_protos.A2m.Layout.{
  entry_bytes, entries_bytes, padding, Fits, Holds, zeros_slot, length-entry_bytes,
  length-entries_bytes, entries_bytes-middle, length-zeros, load-zeros,
}

module _ (ctx_size : ℕ) where
  -- Reading inside entry number `length es`.
  load_entry :
      (log : TrustedLog) (es : List LogEntry) (e : LogEntry) (fs : List LogEntry) (free off n : ℕ)
      → Holds ctx_size log (es ++ (e ∷ fs)) free
      → off + n ≤ entry_size ctx_size
      → load (length es * entry_size ctx_size + off) n log.mem_log
        ≡ load off n (entry_bytes ctx_size e)
  load_entry log es e fs free off n h inside =
      let (fs_es, (f, _)) = All-split (Fits ctx_size) es (e ∷ fs) h.fits in
      rw (h.block, entries_bytes-middle ctx_size es e fs (zeros (free * entry_size ctx_size)))
        (load-skip (length es * entry_size ctx_size) off n (entries_bytes ctx_size es)
            (entry_bytes ctx_size e
              ++ (entries_bytes ctx_size fs ++ zeros (free * entry_size ctx_size)))
            (sym (length-entries_bytes ctx_size es fs_es))
          ∙ load-append_le off n (entry_bytes ctx_size e)
              (entries_bytes ctx_size fs ++ zeros (free * entry_size ctx_size))
              (omega (arith, length-entry_bytes ctx_size e f, inside)))

  module _ (e : LogEntry) (f : Fits ctx_size e) where
    word : length (encode_le 4 e.sequencer) ≡ 4
    word = length-encode_le 4 e.sequencer

    load_sequencer : load 0 4 (entry_bytes ctx_size e) ≡ some (encode_le 4 e.sequencer)
    load_sequencer =
        load_prefix 4 (encode_le 4 e.sequencer) (e.context ++ (e.c_digest ++ padding ctx_size))
          (sym word)

    -- The first bytes of the context and of the digest.
    load_context :
        (n : ℕ) → n ≤ ctx_size → load 4 n (entry_bytes ctx_size e) ≡ some (take n e.context)
    load_context n h =
        load-skip 4 0 n (encode_le 4 e.sequencer) (e.context ++ (e.c_digest ++ padding ctx_size))
          (sym word)
        ∙ load-append_le 0 n e.context (e.c_digest ++ padding ctx_size) (omega (arith, f.0))
        ∙ load_eq 0 n e.context (omega (arith, f.0))

    load_digest :
        (n : ℕ)
        → n ≤ hmac_size
        → load (4 + ctx_size) n (entry_bytes ctx_size e) ≡ some (take n e.c_digest)
    load_digest n h =
        load-skip 4 ctx_size n (encode_le 4 e.sequencer)
          (e.context ++ (e.c_digest ++ padding ctx_size)) (sym word)
        ∙ ap (λ o. load o n (e.context ++ (e.c_digest ++ padding ctx_size))) ctx_zero
        ∙ load-skip ctx_size 0 n e.context (e.c_digest ++ padding ctx_size) (sym f.0)
        ∙ load-append_le 0 n e.c_digest (padding ctx_size) (omega (arith, f.1))
        ∙ load_eq 0 n e.c_digest (omega (arith, f.1))
      where
        ctx_zero : ctx_size ≡ ctx_size + 0
        ctx_zero = omega arith

  module _ (log : TrustedLog) (es : List LogEntry) (e : LogEntry) (fs : List LogEntry) (free : ℕ)
      (h : Holds ctx_size log (es ++ (e ∷ fs)) free) where
    Fits-entry : Fits ctx_size e
    Fits-entry = (All-split (Fits ctx_size) es (e ∷ fs) h.fits).1.0

    slot_zero : length es * entry_size ctx_size ≡ length es * entry_size ctx_size + 0
    slot_zero = omega arith

    sequencer_at :
        load (length es * entry_size ctx_size) 4 log.mem_log ≡ some (encode_le 4 e.sequencer)
    sequencer_at =
        ap (λ o. load o 4 log.mem_log) slot_zero
        ∙ load_entry log es e fs free 0 4 h (omega arith)
        ∙ load_sequencer e Fits-entry

    context_at :
        (n : ℕ)
        → n ≤ ctx_size
        → load (length es * entry_size ctx_size + 4) n log.mem_log ≡ some (take n e.context)
    context_at n small =
        load_entry log es e fs free 4 n h (omega (arith, small)) ∙ load_context e Fits-entry n small

    digest_at :
        (n : ℕ)
        → n ≤ hmac_size
        → load (length es * entry_size ctx_size + (4 + ctx_size)) n log.mem_log
          ≡ some (take n e.c_digest)
    digest_at n small =
        load_entry log es e fs free (4 + ctx_size) n h (omega (arith, small))
        ∙ load_digest e Fits-entry n small

    -- a2m_lookup of the index of an entry, for a context of at least 8 bytes, gives a regular
    -- result with the entry's number modulo 2^32 and the first 8 bytes of its context and of its
    -- digest; the other bytes are what the result's memory held before.
    pub a2m_lookup_written :
        (uninit : LogEntry)
        → Fits ctx_size uninit
        → 8 ≤ ctx_size
        → a2m_lookup ctx_size uninit (length es) log
          ≡ some (record {
            w = regular;
            e = record {
              sequencer = e.sequencer % u32_mod;
              context = take 8 e.context ++ drop 8 uninit.context;
              c_digest = take 8 e.c_digest ++ drop 8 uninit.c_digest;
            };
          })
    unfolding a2m_lookup get_log_size get_entry_at
    a2m_lookup_written uninit fu large = rw (
      ge→ltb log.cur_idx (length es) (omega (arith, h.count, length-append {0} es (e ∷ fs))),
      sequencer_at,
      context_at 8 large,
      store_front (take 8 e.context) uninit.context (omega (arith, context_eight, fu.0)),
      digest_at 8 (omega arith),
      store_front (take 8 e.c_digest) uninit.c_digest (omega (arith, digest_eight, fu.1)),
      context_eight,
      digest_eight,
      decode-encode_u32 e.sequencer,
    )
      where
        context_eight : length (take 8 e.context) ≡ 8
        context_eight = omega (arith, length-take {0} 8 e.context, Fits-entry.0)

        digest_eight : length (take 8 e.c_digest) ≡ 8
        digest_eight = omega (arith, length-take {0} 8 e.c_digest, Fits-entry.1)

    -- serialize_entry of the index of an entry of the log writes that entry's number, context and
    -- digest into a buffer of the size of the three.
    pub serialize_entry-entry :
        (buf : Bytes)
        → length buf ≡ 4 + ctx_size + hmac_size
        → serialize_entry ctx_size buf (length es) log
          ≡ some (encode_le 4 e.sequencer ++ (e.context ++ e.c_digest))
    unfolding serialize_entry serialize_at get_entry_at
    serialize_entry-entry buf size = rw (
      sequencer_at,
      store_front (encode_le 4 e.sequencer) buf (omega (arith, size, four)),
      context_at ctx_size (omega arith),
      take_all ctx_size e.context (omega (arith, Fits-entry.0)),
      store_behind 4 e.context (encode_le 4 e.sequencer) b1 (sym four)
          (omega (arith, length_b1, Fits-entry.0)),
      digest_at hmac_size (omega arith),
      take_all hmac_size e.c_digest (omega (arith, Fits-entry.1)),
      store_behind_two (4 + ctx_size) e.c_digest (encode_le 4 e.sequencer) e.context b2
          (omega (arith, four, Fits-entry.0)) (omega (arith, length_b2, Fits-entry.1)),
      drop_all (length e.c_digest) b2 (omega (arith, length_b2, Fits-entry.1)),
      append-nil e.c_digest,
    )
      where
        four : length (encode_le 4 e.sequencer) ≡ 4
        four = length-encode_le 4 e.sequencer

        b1 : Bytes
        b1 = drop (length (encode_le 4 e.sequencer)) buf

        b2 : Bytes
        b2 = drop (length e.context) b1

        length_b1 : length b1 ≡ ctx_size + hmac_size
        length_b1 =
            omega (arith, length-drop {0} (length (encode_le 4 e.sequencer)) buf, four, size)

        length_b2 : length b2 ≡ hmac_size
        length_b2 = omega (arith, length-drop {0} (length e.context) b1, length_b1, Fits-entry.0)

  -- A free slot.
  load_free :
      (log : TrustedLog) (es : List LogEntry) (free off n : ℕ)
      → Holds ctx_size log es (suc free)
      → off + n ≤ entry_size ctx_size
      → load (length es * entry_size ctx_size + off) n log.mem_log ≡ some (zeros n)
  load_free log es free off n h inside =
      rw (h.block, zeros_slot ctx_size free)
        (load-skip (length es * entry_size ctx_size) off n (entries_bytes ctx_size es)
            (zeros (entry_size ctx_size) ++ zeros (free * entry_size ctx_size))
            (sym (length-entries_bytes ctx_size es h.fits))
          ∙ load-append_le off n (zeros (entry_size ctx_size)) (zeros (free * entry_size ctx_size))
              (omega (arith, length-zeros (entry_size ctx_size), inside))
          ∙ load-zeros off n (entry_size ctx_size) inside)

  -- a2m_lookup of the index one past the last entry of a log with room, for a context of at least 8
  -- bytes, is not unassigned: it gives a regular result that is read from the zeroed free slot.
  pub a2m_lookup_unwritten :
      (log : TrustedLog) (es : List LogEntry) (free : ℕ) (uninit : LogEntry)
      → Holds ctx_size log es (suc free)
      → Fits ctx_size uninit
      → 8 ≤ ctx_size
      → a2m_lookup ctx_size uninit (length es) log
        ≡ some (record {
          w = regular;
          e = record {
            sequencer = 0;
            context = zeros 8 ++ drop 8 uninit.context;
            c_digest = zeros 8 ++ drop 8 uninit.c_digest;
          };
        })
  unfolding a2m_lookup get_log_size get_entry_at decode_le
  a2m_lookup_unwritten log es free uninit h fu large = rw (
    ge→ltb log.cur_idx (length es) (omega (arith, h.count)),
    ap (λ o. load o 4 log.mem_log) slot_zero ∙ load_free log es free 0 4 h (omega arith),
    load_free log es free 4 8 h (omega (arith, large)),
    store_front (zeros 8) uninit.context (omega (arith, fu.0, large, length-zeros 8)),
    load_free log es free (4 + ctx_size) 8 h (omega arith),
    store_front (zeros 8) uninit.c_digest (omega (arith, fu.1, length-zeros 8)),
  )
    where
      slot_zero : length es * entry_size ctx_size ≡ length es * entry_size ctx_size + 0
      slot_zero = omega arith
