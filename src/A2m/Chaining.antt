-- ===== src/A2m/Chaining.antt =====
-- The digest of a new entry: what `a2m_append` (a2m-single-node/log.h) chains it to.
use replication_protos.Prelude.{
  ℕ, suc, ◌+◌, ◌-◌, ◌*◌, ◌≤◌, ◌<◌, ◌≡◌, refl, ap, sym, ◌∙◌, true, List, [], ◌∷◌, ◌++◌, append-nil,
  arith, some, none, if◌then◌else◌, ltb, gt→leb, Bytes, zeros, load, store, load-append_le,
  load-skip, load_prefix, load_eq, load_all, store_fault, store_front, take, drop, drop_all, length,
  length-append, length-take, encode_le, length-encode_le,
}
use replication_protos.Attest.{Platform, hmac_size, hmac_key}
use replication_protos.Attest.Signed.{get_attestation_lem}
use replication_protos.A2m.{
  LogEntry, TrustedLog, entry_size, append, a2m_append, get_tail_digest, get_log_size,
}
use replication_protos.A2m.Layout.{
  entries_bytes, Fits, Holds, zeros_slot, length-entries_bytes, length-zeros, load-zeros,
  store-zeros, store-zeros_two,
}
use replication_protos.A2m.Append.{append-Holds}

-- An array that is overwritten whole.
pub overwrite :
    (bytes block : Bytes) → length bytes ≡ length block → store 0 bytes block ≡ some bytes
overwrite bytes block e =
    store_front bytes block (omega (arith, e))
    ∙ rw (drop_all (length bytes) block (omega (arith, e))) (ap some (append-nil bytes))

module _ (ctx_size : ℕ) where
  -- The slot that `get_tail_digest` reads is the first free one.
  get_tail_digest-zeros :
      (log : TrustedLog) (es : List LogEntry) (free : ℕ)
      → Holds ctx_size log es (suc free)
      → get_tail_digest ctx_size log ≡ some (zeros hmac_size)
  unfolding get_tail_digest
  get_tail_digest-zeros log es free h =
      rw (h.block, zeros_slot ctx_size free)
        (load-skip (log.cur_idx * entry_size ctx_size) (4 + ctx_size) hmac_size
            (entries_bytes ctx_size es)
            (zeros (entry_size ctx_size) ++ zeros (free * entry_size ctx_size))
            (ap (λ k. k * entry_size ctx_size) h.count
              ∙ sym (length-entries_bytes ctx_size es h.fits))
          ∙ load-append_le (4 + ctx_size) hmac_size (zeros (entry_size ctx_size))
              (zeros (free * entry_size ctx_size))
              (omega (arith, length-zeros (entry_size ctx_size)))
          ∙ load-zeros (4 + ctx_size) hmac_size (entry_size ctx_size) (omega arith))

  module _ (openssl : Bytes → Bytes → Bytes)
      (code_size : (k m : Bytes) → length (openssl k m) ≡ hmac_size) (platform : Platform) where
    -- The entry that is made of a value: its digest is the code of the number, the value and a digest
    -- of zeros.
    abbrev pub chained_entry : ℕ → Bytes → LogEntry
    chained_entry sequencer value = record {
      sequencer = sequencer;
      context = take ctx_size value;
      c_digest =
          openssl hmac_key (encode_le 4 sequencer ++ (take ctx_size value ++ zeros hmac_size));
    }

    trimmed :
        (value : Bytes)
        → ctx_size ≤ length value
        → (if ltb ctx_size (length value) then ctx_size else length value) ≡ ctx_size
    trimmed value long = ground arith

    untrimmed :
        (value : Bytes)
        → length value < ctx_size
        → (if ltb ctx_size (length value) then ctx_size else length value) ≡ length value
    untrimmed value short = ground arith

    load_code :
        (m : Bytes) → load 0 hmac_size (openssl hmac_key m ++ zeros 32) ≡ some (openssl hmac_key m)
    load_code m = load_prefix hmac_size (openssl hmac_key m) (zeros 32) (sym (code_size hmac_key m))

    -- The buffer that is hashed, after each of the first two writes.
    first_write :
        (len : ℕ) (bytes : Bytes)
        → length bytes ≡ 4
        → store 0 bytes (zeros (hmac_size + len + 4))
          ≡ some (bytes ++ (zeros (hmac_size + len) ++ []))
    first_write len bytes e =
        ap (store 0 bytes) (sym (append-nil (zeros (hmac_size + len + 4))))
        ∙ store-zeros bytes [] (hmac_size + len + 4) (omega (arith, e)) 0 [] refl
        ∙ ap (λ n. some (bytes ++ (zeros n ++ []))) (omega (arith, e))

    second_write :
        (len : ℕ) (p bytes : Bytes)
        → length p ≡ 4
        → length bytes ≡ len
        → store 4 bytes (p ++ (zeros (hmac_size + len) ++ []))
          ≡ some (p ++ (bytes ++ (zeros hmac_size ++ [])))
    second_write len p bytes ep e =
        store-zeros bytes [] (hmac_size + len) (omega (arith, e)) 4 p (sym ep)
        ∙ ap (λ n. some (p ++ (bytes ++ (zeros n ++ [])))) rest
      where
        rest : hmac_size + len - length bytes ≡ hmac_size
        rest = omega (arith, e)

    third_write :
        (p q bytes : Bytes)
        → length p ≡ 4
        → length q ≡ ctx_size
        → length bytes ≡ hmac_size
        → store (4 + ctx_size) bytes (p ++ (q ++ (zeros hmac_size ++ [])))
          ≡ some (p ++ (q ++ bytes))
    third_write p q bytes ep eq e =
        store-zeros_two bytes [] hmac_size (omega (arith, e)) (4 + ctx_size) p q
          (omega (arith, ep, eq))
        ∙ ap (λ n. some (p ++ (q ++ (bytes ++ (zeros n ++ []))))) rest
        ∙ ap (λ b. some (p ++ (q ++ b))) (append-nil bytes)
      where
        rest : hmac_size - length bytes ≡ 0
        rest = omega (arith, e)

    -- With room in the log, a2m_append of a value of at least the context's size succeeds and
    -- appends the entry of the next number and of the value cut to that size, whose digest is the
    -- HMAC of the number, the value and 32 zero bytes: it does not depend on the digest of an
    -- earlier entry.
    pub a2m_append-Holds :
        (log : TrustedLog) (es : List LogEntry) (free : ℕ) (uninit : LogEntry) (value : Bytes)
        → Holds ctx_size log es (suc free)
        → Fits ctx_size uninit
        → ctx_size ≤ length value
        → (log' : TrustedLog) × (a2m_append ctx_size openssl platform uninit value log
            ≡ some (true, log'))
          × Holds ctx_size log' (es ++ (chained_entry (length es) value ∷ [])) free
          × (log'.tail ≡ length es * entry_size ctx_size)
    unfolding a2m_append get_log_size
    a2m_append-Holds log es free uninit value h f long =
        let entry = chained_entry (length es) value in
        let (log', done, held, at_end) =
          append-Holds ctx_size log es free entry h (size, code_size hmac_key _) in
        (log', run ∙ done, held, at_end)
      where
        size : length (take ctx_size value) ≡ ctx_size
        size = omega (arith, length-take {0} ctx_size value)

        word : length (encode_le 4 log.cur_idx) ≡ 4
        word = length-encode_le 4 log.cur_idx

        run :
            a2m_append ctx_size openssl platform uninit value log
            ≡ append ctx_size (chained_entry (length es) value) log
        run = rw (
          gt→leb log.nb_max_entries log.cur_idx (omega (arith, h.capacity, h.count)),
          trimmed value long,
          load_eq 0 ctx_size value (omega (arith, long)),
          overwrite (take ctx_size value) uninit.context (size ∙ sym f.0),
          first_write ctx_size (encode_le 4 log.cur_idx) word,
          load_all ctx_size (take ctx_size value) (sym size),
          second_write ctx_size (encode_le 4 log.cur_idx) (take ctx_size value) word size,
          get_tail_digest-zeros log es free h,
          third_write (encode_le 4 log.cur_idx) (take ctx_size value) (zeros hmac_size) word size
              (length-zeros hmac_size),
          get_attestation_lem openssl code_size platform
              (encode_le 4 log.cur_idx ++ (take ctx_size value ++ zeros hmac_size)) platform,
          load_code (encode_le 4 log.cur_idx ++ (take ctx_size value ++ zeros hmac_size)),
          overwrite
              (openssl hmac_key
                (encode_le 4 log.cur_idx ++ (take ctx_size value ++ zeros hmac_size)))
              uninit.c_digest (code_size hmac_key _ ∙ sym f.1),
          h.count,
        )

    -- With room in the log, a2m_append of a value shorter than the context's size faults: it writes
    -- the tail's digest past the end of the buffer that it hashes.
    pub a2m_append_short :
        (log : TrustedLog) (es : List LogEntry) (free : ℕ) (uninit : LogEntry) (value : Bytes)
        → Holds ctx_size log es (suc free)
        → Fits ctx_size uninit
        → length value < ctx_size
        → a2m_append ctx_size openssl platform uninit value log ≡ none
    unfolding a2m_append get_log_size
    a2m_append_short log es free uninit value h f short = rw (
      gt→leb log.nb_max_entries log.cur_idx (omega (arith, h.capacity, h.count)),
      untrimmed value short,
      load_all (length value) value refl,
      store_front value uninit.context (omega (arith, f.0)),
      first_write (length value) (encode_le 4 log.cur_idx) word,
      load_prefix (length value) value (drop (length value) uninit.context) refl,
      second_write (length value) (encode_le 4 log.cur_idx) value word refl,
      get_tail_digest-zeros log es free h,
      store_fault (4 + ctx_size) (zeros hmac_size)
          (encode_le 4 log.cur_idx ++ (value ++ (zeros hmac_size ++ []))) past,
    )
      where
        word : length (encode_le 4 log.cur_idx) ≡ 4
        word = length-encode_le 4 log.cur_idx

        past :
            length (encode_le 4 log.cur_idx ++ (value ++ (zeros hmac_size ++ [])))
            < 4 + ctx_size + length (zeros hmac_size)
        past = omega (
          arith,
          word,
          length-append {0} (encode_le 4 log.cur_idx) (value ++ (zeros hmac_size ++ [])),
          length-append {0} value (zeros hmac_size ++ []),
          length-append {0} (zeros hmac_size) [],
        )
