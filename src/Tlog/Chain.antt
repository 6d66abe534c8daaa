-- ===== src/Tlog/Chain.antt =====
-- The chain of digests: what `log` (trusted-log/main.cc) keeps and what `validate_log_entry` detects.
use replication_protos.Prelude.{
  ℕ, suc, ◌+◌, ◌-◌, ◌*◌, ◌/◌, ◌%◌, ◌≤◌, ◌≡◌, refl, ap, sym, ◌∙◌, true, false, some, List, [], ◌∷◌,
  ◌++◌, append-nil, append_assoc, arith, ◌==◌, ge→ltb, Bytes, zeros, load, store_front, same_bytes,
  length, length-append, length-drop, drop, All-split, encode_le, load_prefix, load_inside,
  load-concat, subst, length-encode_le, length-concat, u32_mod,
}
use replication_protos.Outcome.{ok}
use replication_protos.Attest.{Platform, hmac_size, hmac_key}
use replication_protos.Attest.Signed.{get_attestation_lem, load_code}
use replication_protos.A2m.Chaining.{overwrite}
use replication_protos.A2m.Layout.{length-zeros}
use replication_protos.Tlog.Log.{
  LogEntry, TrustedLog, init, append, serialize_tail, serialize_entry, get_entry_at, get_log_size,
}
use replication_protos.Tlog.Layout.{
  entry_bytes, Fits, Holds, zeros_slot, load_slot, serialize_slot, append-Holds, init-Holds,
}
use replication_protos.Tlog.Metadata.{Metadata, log_entry, slot_size, log, validate_log_entry}

-- Every entry's digest is the code of the entry before it, of `prev` for the first one, and the
-- entries are numbered from `i` on.
abbrev pub IsChained : (Bytes → Bytes → Bytes) → Bytes → ℕ → List LogEntry → Type 0
IsChained openssl prev i [] = Unit
IsChained openssl prev i (e ∷ es) =
    (e.c_digest ≡ openssl hmac_key prev)
    × (e.sequencer ≡ i)
    × IsChained openssl (entry_bytes e) (suc i) es

-- The bytes of the last entry, `prev` if there is none.
abbrev pub last_bytes : Bytes → List LogEntry → Bytes
last_bytes prev [] = prev
last_bytes prev (e ∷ es) = last_bytes (entry_bytes e) es

last_bytes-append :
    (prev : Bytes) (es : List LogEntry) (e : LogEntry)
    → last_bytes prev (es ++ (e ∷ [])) ≡ entry_bytes e
last_bytes-append prev [] e = refl
last_bytes-append prev (x ∷ es) e = last_bytes-append (entry_bytes x) es e

IsChained-append :
    (openssl : Bytes → Bytes → Bytes) (prev : Bytes) (i : ℕ) (es : List LogEntry) (e : LogEntry)
    → IsChained openssl prev i es
    → e.c_digest ≡ openssl hmac_key (last_bytes prev es)
    → e.sequencer ≡ i + length es
    → IsChained openssl prev i (es ++ (e ∷ []))
IsChained-append openssl prev i [] e h d s = (d, omega (arith, s), tt)
IsChained-append openssl prev i (x ∷ es) e (hd, hs, h) d s =
    (hd, hs, IsChained-append openssl (entry_bytes x) (suc i) es e h d (omega (arith, s)))

-- The state of the log between two calls: its entries, chained, and `tail` at the last of them.
pub record IsLog (openssl : Bytes → Bytes → Bytes) (tlog : TrustedLog) (es : List LogEntry)
    (free : ℕ) : Type 0 where
  pub holds : Holds log_entry tlog es free
  pub chained : IsChained openssl (zeros slot_size) 0 es
  pub last : load tlog.tail slot_size tlog.mem_log ≡ some (last_bytes (zeros slot_size) es)

pub aligned : log_entry % 4 ≡ 0
aligned = refl

-- A new log with room for an entry.
pub init-IsLog :
    (openssl : Bytes → Bytes → Bytes) (log_sz free : ℕ)
    → log_sz / slot_size % u32_mod ≡ suc free
    → IsLog openssl (init log_entry log_sz) [] (suc free)
unfolding init
init-IsLog openssl log_sz free e = record {
  holds =
      subst (Holds log_entry (init log_entry log_sz) []) e (init-Holds log_entry aligned log_sz);
  chained = tt;
  last =
      ap (λ n. load 0 slot_size (zeros (n * slot_size))) e
      ∙ ap (load 0 slot_size) (zeros_slot log_entry aligned free)
      ∙ load_prefix slot_size (zeros slot_size) (zeros (free * slot_size))
          (sym (length-zeros slot_size));
}

module _ (openssl : Bytes → Bytes → Bytes)
    (code_size : (k m : Bytes) → length (openssl k m) ≡ hmac_size) (platform : Platform) where
  -- The entry that `log` adds.
  abbrev pub logged_entry : Bytes → Bytes → LogEntry → List LogEntry → LogEntry
  logged_entry action authenticator uninit es = record {
    sequencer = length es;
    context = action ++ drop (length action) uninit.context;
    c_digest = openssl hmac_key (last_bytes (zeros slot_size) es);
    authenticator = authenticator;
  }

  -- log keeps a log with room well formed: the memory holds the entries in order, each entry is
  -- numbered by its position, its digest is the HMAC of the bytes of the entry before it alone, of
  -- zeros for the first, and not of the entry itself, and the tail is the last entry. It adds one
  -- entry with the action, followed by what the entry's context held before, and the authenticator.
  -- The action has at most 208 bytes, the authenticator and the HMAC 32.
  pub log-IsLog :
      (action authenticator : Bytes) (uninit : LogEntry) (meta : Metadata) (es : List LogEntry)
      (free : ℕ)
      → IsLog openssl meta.tlog es (suc free)
      → Fits log_entry uninit
      → length action ≤ log_entry
      → length authenticator ≡ hmac_size
      → (tlog : TrustedLog) × (log openssl platform action authenticator uninit meta
          ≡ ok (true, record meta { tlog = tlog }))
        × IsLog openssl tlog (es ++ (logged_entry action authenticator uninit es ∷ [])) free
  unfolding log serialize_tail get_log_size
  log-IsLog action authenticator uninit meta es free v (fc, fd, fa, fs) short auth =
      let (tlog, done, holds, at_tail) =
        append-Holds log_entry aligned meta.tlog es free entry v.holds fits in
      (
        tlog,
        rw (
          serialize_slot log_entry aligned meta.tlog.tail (zeros slot_size) meta.tlog.mem_log
              (length-zeros slot_size) v.last,
          get_attestation_lem openssl code_size platform (last_bytes (zeros slot_size) es) platform,
          load_code openssl code_size platform (last_bytes (zeros slot_size) es),
          overwrite (openssl hmac_key (last_bytes (zeros slot_size) es)) uninit.c_digest
              (code_size hmac_key (last_bytes (zeros slot_size) es) ∙ sym fd),
          overwrite authenticator uninit.authenticator (auth ∙ sym fa),
          ge→ltb log_entry (length action) short,
          store_front action uninit.context (omega (arith, fc, short)),
          ap (λ k. append log_entry (record entry { sequencer = k }) meta.tlog) v.holds.count
              ∙ done,
        ),
        record {
          holds = holds;
          chained = IsChained-append openssl (zeros slot_size) 0 es entry v.chained refl from_zero;
          last =
              ap (λ o. load o slot_size tlog.mem_log) at_tail
              ∙ load_slot log_entry aligned tlog es entry [] free holds
              ∙ ap some (sym (last_bytes-append (zeros slot_size) es entry));
        },
      )
    where
      entry : LogEntry
      entry = logged_entry action authenticator uninit es

      from_zero : length es ≡ 0 + length es
      from_zero = omega arith

      fits : Fits log_entry entry
      fits = (
        omega (
          arith,
          fc,
          short,
          length-append {0} action (drop (length action) uninit.context),
          length-drop {0} (length action) uninit.context,
        ),
        code_size hmac_key (last_bytes (zeros slot_size) es),
        auth,
        omega (arith, v.holds.capacity, v.holds.small),
      )

  load_digest :
      (tlog : TrustedLog) (es : List LogEntry) (e : LogEntry) (fs : List LogEntry) (free : ℕ)
      → Holds log_entry tlog (es ++ (e ∷ fs)) free
      → load (length es * slot_size + (4 + log_entry)) hmac_size tlog.mem_log ≡ some e.c_digest
  load_digest tlog es e fs free h =
      let (_, ((c, d, a, s), _)) = All-split (Fits log_entry) es (e ∷ fs) h.fits in
      load_inside (length es * slot_size) slot_size (4 + log_entry) hmac_size tlog.mem_log
        (load_slot log_entry aligned tlog es e fs free h) (omega arith)
      ∙ ap (load (4 + log_entry) hmac_size) (sym (append-nil (entry_bytes e)))
      ∙ load-concat (encode_le 4 e.sequencer ∷ e.context ∷ []) e.c_digest (e.authenticator ∷ [])
          (4 + log_entry) hmac_size []
          (omega (
            arith,
            c,
            length-encode_le 4 e.sequencer,
            length-concat (encode_le 4 e.sequencer ∷ e.context ∷ []),
          ))
          (sym d)

  -- What validation computes on the slots of two neighbours.
  pub validate_log_entry_lem :
      (tlog : TrustedLog) (es : List LogEntry) (e f : LogEntry) (fs : List LogEntry) (free : ℕ)
      → Holds log_entry tlog (es ++ (e ∷ f ∷ fs)) free
      → validate_log_entry openssl platform (suc (length es)) tlog
        ≡ ok (same_bytes (openssl hmac_key (entry_bytes e)) f.c_digest)
  unfolding validate_log_entry serialize_entry get_entry_at
  validate_log_entry_lem tlog es e f fs free h = rw (
    not_zero,
    pred,
    serialize_slot log_entry aligned (length es * slot_size) (zeros slot_size) tlog.mem_log
        (length-zeros slot_size) (load_slot log_entry aligned tlog es e (f ∷ fs) free h),
    get_attestation_lem openssl code_size platform (entry_bytes e) platform,
    load_code openssl code_size platform (entry_bytes e),
    digest,
  )
    where
      pred : suc (length es) - 1 ≡ length es
      pred = omega arith

      not_zero : (suc (length es) == 0) ≡ false
      not_zero = ground arith

      one_more : suc (length es) ≡ length (es ++ (e ∷ []))
      one_more = omega (arith, length-append {0} es (e ∷ []))

      digest :
          load (suc (length es) * slot_size + (4 + log_entry)) hmac_size tlog.mem_log
          ≡ some f.c_digest
      digest =
          ap (λ n. load (n * slot_size + (4 + log_entry)) hmac_size tlog.mem_log) one_more
          ∙ load_digest tlog (es ++ (e ∷ [])) f fs free
              (subst (λ l. Holds log_entry tlog l free) (sym (append_assoc es (e ∷ []) (f ∷ fs))) h)
