-- ===== src/Tlog/Layout.antt =====
-- The log of trusted-log/log.h as a list of entries, for contexts whose size is a multiple of 4, as
-- the sizes of the program are: then an entry has no padding.
use replication_protos.Prelude.{
  ℕ, suc, ◌+◌, ◌*◌, ◌/◌, ◌%◌, ◌<◌, ◌≡◌, refl, ap, sym, ◌∙◌, true, some, List, [], ◌∷◌, ◌++◌,
  append-nil, append_assoc, arith, Bytes, zeros, load, store_fields, store_fields-behind,
  copy_fields, copy_fields_lem, concat, length-concat, ap₂, drop-append_exact, length,
  length-append, drop_all, All, All-append, All-split, load-append, length-encode_le, gt→leb,
  u32_mod,
}
use replication_protos.Attest.{hmac_size}
use replication_protos.Tlog.Log.{
  LogEntry, TrustedLog, entry_size, entry_fields, init, append_entry, append, field_sizes,
  get_cur_log_idx, inc_idx,
}
use replication_protos.A2m.Layout.{length-zeros, zeros-add}

abbrev pub entry_bytes : LogEntry → Bytes
entry_bytes e = concat (entry_fields e)

abbrev pub entries_bytes : List LogEntry → Bytes
entries_bytes [] = []
entries_bytes (e ∷ es) = entry_bytes e ++ entries_bytes es

-- An entry whose arrays have the sizes of the type, and whose number is a 32-bit number.
abbrev pub Fits : ℕ → LogEntry → Type 0
Fits ctx_size e =
    (length e.context ≡ ctx_size)
    × (length e.c_digest ≡ hmac_size)
    × (length e.authenticator ≡ hmac_size)
    × (e.sequencer < u32_mod)

-- The log holds the entries `es`, in order, and room for `free` more, which is still zero.
pub record Holds (ctx_size : ℕ) (log : TrustedLog) (es : List LogEntry) (free : ℕ) : Type 0 where
  pub block : log.mem_log ≡ entries_bytes es ++ zeros (free * entry_size ctx_size)
  pub count : log.cur_idx ≡ length es
  pub capacity : log.nb_max_entries ≡ length es + free
  pub small : log.nb_max_entries < u32_mod
  pub fits : All (Fits ctx_size) es

suc_slot : (n s a b : ℕ) → a ≡ s → b ≡ n * s → a + b ≡ suc n * s
suc_slot n s a b e h = grind arith

pub entries_bytes-middle :
    (es : List LogEntry) (e : LogEntry) (fs : List LogEntry) (after : Bytes)
    → entries_bytes (es ++ (e ∷ fs)) ++ after
      ≡ entries_bytes es ++ (entry_bytes e ++ (entries_bytes fs ++ after))
entries_bytes-middle [] e fs after = append_assoc (entry_bytes e) (entries_bytes fs) after
entries_bytes-middle (x ∷ es) e fs after =
    append_assoc (entry_bytes x) (entries_bytes (es ++ (e ∷ fs))) after
    ∙ ap (◌++◌ (entry_bytes x)) (entries_bytes-middle es e fs after)
    ∙ sym (
        append_assoc (entry_bytes x) (entries_bytes es)
          (entry_bytes e ++ (entries_bytes fs ++ after)))

module _ (ctx_size : ℕ) (aligned : ctx_size % 4 ≡ 0) where
  pub size_lem : entry_size ctx_size ≡ 4 + ctx_size + hmac_size + hmac_size
  size_lem = omega (arith, aligned)

  pub length-entry_bytes :
      (e : LogEntry) → Fits ctx_size e → length (entry_bytes e) ≡ entry_size ctx_size
  length-entry_bytes e (c, d, a, s) =
      omega
        (arith, aligned, c, d, a, length-encode_le 4 e.sequencer, length-concat (entry_fields e))

  pub length-entries_bytes :
      (es : List LogEntry)
      → All (Fits ctx_size) es
      → length (entries_bytes es) ≡ length es * entry_size ctx_size
  length-entries_bytes [] f = no_slot
    where
      no_slot : 0 ≡ 0 * entry_size ctx_size
      no_slot = grind arith
  length-entries_bytes (e ∷ es) f =
      length-append (entry_bytes e) (entries_bytes es)
      ∙ suc_slot (length es) (entry_size ctx_size) _ _ (length-entry_bytes e f.0)
          (length-entries_bytes es f.1)

  pub zeros_slot :
      (free : ℕ)
      → zeros (suc free * entry_size ctx_size)
        ≡ zeros (entry_size ctx_size) ++ zeros (free * entry_size ctx_size)
  zeros_slot free =
      ap zeros (sym (suc_slot free (entry_size ctx_size) _ _ refl refl))
      ∙ zeros-add (entry_size ctx_size) (free * entry_size ctx_size)

  pub init-Holds :
      (log_sz : ℕ)
      → Holds ctx_size (init ctx_size log_sz) [] (log_sz / entry_size ctx_size % u32_mod)
  unfolding init
  init-Holds log_sz = record {
    block = refl;
    count = refl;
    capacity = no_more (log_sz / entry_size ctx_size % u32_mod);
    small = omega arith;
    fits = tt;
  }
    where
      no_more : (n : ℕ) → n ≡ 0 + n
      no_more n = omega arith

  -- The slot of entry number `length es`.
  pub load_slot :
      (log : TrustedLog) (es : List LogEntry) (e : LogEntry) (fs : List LogEntry) (free : ℕ)
      → Holds ctx_size log (es ++ (e ∷ fs)) free
      → load (length es * entry_size ctx_size) (entry_size ctx_size) log.mem_log
        ≡ some (entry_bytes e)
  load_slot log es e fs free h =
      let (fs_es, (f, _)) = All-split (Fits ctx_size) es (e ∷ fs) h.fits in
      ap (load _ _) (h.block ∙ entries_bytes-middle es e fs (zeros (free * entry_size ctx_size)))
      ∙ load-append (length es * entry_size ctx_size) (entry_size ctx_size) (entries_bytes es)
          (entry_bytes e) _ (sym (length-entries_bytes es fs_es)) (sym (length-entry_bytes e f))

  -- A slot serialised into a buffer of its size.
  pub serialize_slot :
      (pos : ℕ) (buf mem : Bytes) {slot : Bytes}
      → length buf ≡ entry_size ctx_size
      → load pos (entry_size ctx_size) mem ≡ some slot
      → copy_fields pos 0 (field_sizes ctx_size) mem buf ≡ some slot
  serialize_slot pos buf mem {slot} e h =
      copy_fields_lem (field_sizes ctx_size) pos 0 mem [] buf refl
        (ap₂ (λ o n. load o n mem) off_eq size_eq ∙ h) (omega (arith, aligned, e))
      ∙ rw
          (drop_all (4 + (ctx_size + (hmac_size + (hmac_size + 0)))) buf
            (omega (arith, aligned, e)))
          (ap some (append-nil slot))
    where
      off_eq : pos + 0 ≡ pos
      off_eq = omega arith

      size_eq : 4 + (ctx_size + (hmac_size + (hmac_size + 0))) ≡ entry_size ctx_size
      size_eq = omega (arith, aligned)

  pub append-Holds :
      (log : TrustedLog) (es : List LogEntry) (free : ℕ) (e : LogEntry)
      → Holds ctx_size log es (suc free)
      → Fits ctx_size e
      → (log' : TrustedLog) × (append ctx_size e log ≡ some (true, log'))
        × Holds ctx_size log' (es ++ (e ∷ [])) free
        × (log'.tail ≡ length es * entry_size ctx_size)
  unfolding append append_entry inc_idx get_cur_log_idx
  append-Holds log es free e h f = (
    record log {
      mem_log = entries_bytes es ++ (entry_bytes e ++ zeros (free * entry_size ctx_size));
      cur_idx = (log.cur_idx + 1) % u32_mod;
      tail = log.cur_idx * entry_size ctx_size;
    },
    rw (gt→leb log.nb_max_entries log.cur_idx (omega (arith, h.capacity, h.count)), stored),
    record {
      block = sym (entries_bytes-middle es e [] (zeros (free * entry_size ctx_size)));
      count = omega (arith, h.count, h.capacity, h.small, length-append {0} es (e ∷ []));
      capacity = omega (arith, h.capacity, length-append {0} es (e ∷ []));
      small = h.small;
      fits = All-append (Fits ctx_size) es (e ∷ []) h.fits (f, tt);
    },
    ap (λ k. k * entry_size ctx_size) h.count,
  )
    where
      stored :
          store_fields (log.cur_idx * entry_size ctx_size) (entry_fields e) log.mem_log
          ≡ some (entries_bytes es ++ (entry_bytes e ++ zeros (free * entry_size ctx_size)))
      stored =
          ap (store_fields _ (entry_fields e))
            (h.block ∙ ap (◌++◌ (entries_bytes es)) (zeros_slot free))
          ∙ store_fields-behind (entry_fields e) (log.cur_idx * entry_size ctx_size)
              (entries_bytes es) (zeros (entry_size ctx_size) ++ zeros (free * entry_size ctx_size))
              (ap (λ k. k * entry_size ctx_size) h.count ∙ sym (length-entries_bytes es h.fits))
              (omega (
                arith,
                length-entry_bytes e f,
                length-zeros (entry_size ctx_size),
                length-append {0} (zeros (entry_size ctx_size))
                    (zeros (free * entry_size ctx_size)),
              ))
          ∙ ap (λ z. some (entries_bytes es ++ (entry_bytes e ++ z)))
              (drop-append_exact (length (entry_bytes e)) (zeros (entry_size ctx_size))
                (zeros (free * entry_size ctx_size))
                (length-entry_bytes e f ∙ sym (length-zeros (entry_size ctx_size))))
