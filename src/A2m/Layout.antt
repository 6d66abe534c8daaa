-- ===== src/A2m/Layout.antt =====
-- The log as a list of entries: how they lie in the block.
use replication_protos.Prelude.{
  ℕ, zero, suc, ◌+◌, ◌-◌, ◌*◌, ◌/◌, ◌%◌, ◌≤◌, ◌<◌, ◌≡◌, refl, ap, sym, ◌∙◌, List, [], ◌∷◌, ◌++◌,
  append-nil, append_assoc, arith, some, Bytes, zeros, load, load-append, store, store_behind,
  store_behind_two, store_behind_three, drop, length, length-append, length-replicate, All,
  encode_le, length-encode_le, u32_mod,
}
use replication_protos.Attest.{hmac_size}
use replication_protos.A2m.{LogEntry, TrustedLog, entry_size, init}

-- The padding behind the fields of an entry.
abbrev pub padding : ℕ → Bytes
padding ctx_size = zeros (entry_size ctx_size - (4 + ctx_size + hmac_size))

abbrev pub entry_bytes : ℕ → LogEntry → Bytes
entry_bytes ctx_size e = encode_le 4 e.sequencer ++ (e.context ++ (e.c_digest ++ padding ctx_size))

abbrev pub entries_bytes : ℕ → List LogEntry → Bytes
entries_bytes ctx_size [] = []
entries_bytes ctx_size (e ∷ es) = entry_bytes ctx_size e ++ entries_bytes ctx_size es

-- An entry whose arrays have the sizes of the type.
abbrev pub Fits : ℕ → LogEntry → Type 0
Fits ctx_size e = (length e.context ≡ ctx_size) × (length e.c_digest ≡ hmac_size)

-- The log holds the entries `es`, in order, and room for `free` more, which is still zero.
pub record Holds (ctx_size : ℕ) (log : TrustedLog) (es : List LogEntry) (free : ℕ) : Type 0 where
  pub block : log.mem_log ≡ entries_bytes ctx_size es ++ zeros (free * entry_size ctx_size)
  pub count : log.cur_idx ≡ length es
  pub capacity : log.nb_max_entries ≡ length es + free
  pub small : log.nb_max_entries < u32_mod
  pub fits : All (Fits ctx_size) es

no_slot : (s : ℕ) → 0 ≡ 0 * s
no_slot s = grind arith

slot_more : (n s a b : ℕ) → a ≡ s → b ≡ n * s → a + b ≡ suc n * s
slot_more n s a b e h = grind arith

pub length-zeros : (n : ℕ) → length (zeros n) ≡ n
length-zeros n = length-replicate n 0

no_more : (n : ℕ) → n ≡ 0 + n
no_more n = omega arith

pub zeros-add : (m n : ℕ) → zeros (m + n) ≡ zeros m ++ zeros n
zeros-add zero n = ap zeros zero_add
  where
    zero_add : 0 + n ≡ n
    zero_add = omega arith
zeros-add (suc m) n = ap zeros suc_add ∙ ap (◌∷◌ 0) (zeros-add m n)
  where
    suc_add : suc m + n ≡ suc (m + n)
    suc_add = omega arith

module _ (ctx_size : ℕ) where
  pub length-entry_bytes :
      (e : LogEntry) → Fits ctx_size e → length (entry_bytes ctx_size e) ≡ entry_size ctx_size
  length-entry_bytes e f = omega (
    arith,
    length-append {0} (encode_le 4 e.sequencer) (e.context ++ (e.c_digest ++ padding ctx_size)),
    length-append {0} e.context (e.c_digest ++ padding ctx_size),
    length-append {0} e.c_digest (padding ctx_size),
    length-encode_le 4 e.sequencer,
    f.0,
    f.1,
    length-zeros (entry_size ctx_size - (4 + ctx_size + hmac_size)),
  )

  pub length-entries_bytes :
      (es : List LogEntry)
      → All (Fits ctx_size) es
      → length (entries_bytes ctx_size es) ≡ length es * entry_size ctx_size
  length-entries_bytes [] f = no_slot (entry_size ctx_size)
  length-entries_bytes (e ∷ es) f =
      length-append (entry_bytes ctx_size e) (entries_bytes ctx_size es)
      ∙ slot_more (length es) (entry_size ctx_size) _ _ (length-entry_bytes e f.0)
          (length-entries_bytes es f.1)

  pub entries_bytes-append :
      (es : List LogEntry) (e : LogEntry)
      → entries_bytes ctx_size (es ++ (e ∷ []))
        ≡ entries_bytes ctx_size es ++ entry_bytes ctx_size e
  entries_bytes-append [] e = append-nil (entry_bytes ctx_size e)
  entries_bytes-append (x ∷ es) e =
      ap (◌++◌ (entry_bytes ctx_size x)) (entries_bytes-append es e)
      ∙ sym (
          append_assoc (entry_bytes ctx_size x) (entries_bytes ctx_size es)
            (entry_bytes ctx_size e))

  pub entries_bytes-middle :
      (es : List LogEntry) (e : LogEntry) (fs : List LogEntry) (after : Bytes)
      → entries_bytes ctx_size (es ++ (e ∷ fs)) ++ after
        ≡ entries_bytes ctx_size es
          ++ (entry_bytes ctx_size e ++ (entries_bytes ctx_size fs ++ after))
  entries_bytes-middle [] e fs after =
      append_assoc (entry_bytes ctx_size e) (entries_bytes ctx_size fs) after
  entries_bytes-middle (x ∷ es) e fs after =
      append_assoc (entry_bytes ctx_size x) (entries_bytes ctx_size (es ++ (e ∷ fs))) after
      ∙ ap (◌++◌ (entry_bytes ctx_size x)) (entries_bytes-middle es e fs after)
      ∙ sym (
          append_assoc (entry_bytes ctx_size x) (entries_bytes ctx_size es)
            (entry_bytes ctx_size e ++ (entries_bytes ctx_size fs ++ after)))

  -- One free slot split off.
  pub zeros_slot :
      (free : ℕ)
      → zeros (suc free * entry_size ctx_size)
        ≡ zeros (entry_size ctx_size) ++ zeros (free * entry_size ctx_size)
  zeros_slot free =
      ap zeros (sym (slot_more free (entry_size ctx_size) _ _ refl refl))
      ∙ zeros-add (entry_size ctx_size) (free * entry_size ctx_size)

  pub init-Holds :
      (log_sz : ℕ)
      → Holds ctx_size (init ctx_size log_sz) [] (log_sz / entry_size ctx_size % u32_mod)
  unfolding init
  init-Holds log_sz = record {
    block = refl;
    count = refl;
    capacity = no_more (log_sz / entry_size ctx_size % u32_mod);
    small = omega arith;
    fits = tt;
  }

drop-zeros : (k n : ℕ) (more : Bytes) → k ≤ n → drop k (zeros n ++ more) ≡ zeros (n - k) ++ more
drop-zeros zero n more h = ap (λ m. zeros m ++ more) sub_zero
  where
    sub_zero : n ≡ n - 0
    sub_zero = omega arith
drop-zeros (suc k) zero more h = absurd (omega arith)
drop-zeros (suc k) (suc n) more h =
    drop-zeros k n more (omega arith) ∙ ap (λ m. zeros m ++ more) sub_suc
  where
    sub_suc : n - k ≡ suc n - suc k
    sub_suc = omega arith

pub load-zeros : (off n m : ℕ) → off + n ≤ m → load off n (zeros m) ≡ some (zeros n)
load-zeros off n m h =
    ap (load off n) parts
    ∙ load-append off n (zeros off) (zeros n) (zeros (m - off - n)) (sym (length-zeros off))
        (sym (length-zeros n))
  where
    split : m ≡ off + (n + (m - off - n))
    split = omega arith

    parts : zeros m ≡ zeros off ++ (zeros n ++ zeros (m - off - n))
    parts =
        ap zeros split
        ∙ zeros-add off (n + (m - off - n))
        ∙ ap (◌++◌ (zeros off)) (zeros-add n (m - off - n))

-- Writing at the front of the zeroed rest of a block, behind one, two or three parts.
module _ (bytes after : Bytes) (n : ℕ) (fit : length bytes ≤ n) where
  room : length bytes ≤ length (zeros n ++ after)
  room = omega (arith, length-append {0} (zeros n) after, length-zeros n)

  rest_zero : drop (length bytes) (zeros n ++ after) ≡ zeros (n - length bytes) ++ after
  rest_zero = drop-zeros (length bytes) n after fit

  pub store-zeros :
      (off : ℕ) (p : Bytes)
      → off ≡ length p
      → store off bytes (p ++ (zeros n ++ after))
        ≡ some (p ++ (bytes ++ (zeros (n - length bytes) ++ after)))
  store-zeros off p e =
      store_behind off bytes p (zeros n ++ after) e room
      ∙ ap (λ z. some (p ++ (bytes ++ z))) rest_zero

  pub store-zeros_two :
      (off : ℕ) (p q : Bytes)
      → off ≡ length p + length q
      → store off bytes (p ++ (q ++ (zeros n ++ after)))
        ≡ some (p ++ (q ++ (bytes ++ (zeros (n - length bytes) ++ after))))
  store-zeros_two off p q e =
      store_behind_two off bytes p q (zeros n ++ after) e room
      ∙ ap (λ z. some (p ++ (q ++ (bytes ++ z)))) rest_zero

  pub store-zeros_three :
      (off : ℕ) (p q r : Bytes)
      → off ≡ length p + length q + length r
      → store off bytes (p ++ (q ++ (r ++ (zeros n ++ after))))
        ≡ some (p ++ (q ++ (r ++ (bytes ++ (zeros (n - length bytes) ++ after)))))
  store-zeros_three off p q r e =
      store_behind_three off bytes p q r (zeros n ++ after) e room
      ∙ ap (λ z. some (p ++ (q ++ (r ++ (bytes ++ z))))) rest_zero
