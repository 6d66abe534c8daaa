-- ===== src/Tlog/Tamper.antt =====
-- What the chain of digests of trusted-log/ gives away about a log that was changed.
use replication_protos.Prelude.{
  some_injective, same_bytes_differ, ℕ, zero, suc, ◌+◌, ◌<◌, ◌≡◌, ◌≢◌, ◌⊎◌, ◌↔◌, inl, inr, refl, ap,
  ap₂, sym, subst, ◌∙◌, Bool-cases, true, some, List, [], ◌∷◌, ◌++◌, append_assoc, arith, Bytes,
  zeros, load, same_bytes, same_bytes_refl, same_bytes_sound, length, length-append, All, encode_le,
  decode_le, decode-encode_u32, load_fields, load_fields-concat, u32_mod, length-encode_le,
}
use replication_protos.Outcome.{ok_injective, ok}
use replication_protos.Attest.{Platform, hmac_size, hmac_key}
use replication_protos.Tlog.Log.{LogEntry, TrustedLog, entry_fields, field_sizes}
use replication_protos.Tlog.Layout.{entry_bytes, Fits, Holds}
use replication_protos.Tlog.Metadata.{log_entry, slot_size, validate_log_entry}
use replication_protos.Tlog.Chain.{IsChained, IsLog, last_bytes, validate_log_entry_lem}

-- Every digest is the code of the entry before.
abbrev pub Linked : (Bytes → Bytes → Bytes) → List LogEntry → Type 0
Linked openssl [] = Unit
Linked openssl (e ∷ []) = Unit
Linked openssl (e ∷ f ∷ fs) =
    (f.c_digest ≡ openssl hmac_key (entry_bytes e)) × Linked openssl (f ∷ fs)

module _ (openssl : Bytes → Bytes → Bytes)
    (code_size : (k m : Bytes) → length (openssl k m) ≡ hmac_size) (platform : Platform)
    (tlog : TrustedLog) (free : ℕ) where
  codes_from :
      (pre suf : List LogEntry)
      → Holds log_entry tlog (pre ++ suf) free
      → ((i : ℕ) → i < length (pre ++ suf) → validate_log_entry openssl platform i tlog ≡ ok true)
      → Linked openssl suf
  codes_from pre [] h v = tt
  codes_from pre (e ∷ []) h v = tt
  codes_from pre (e ∷ f ∷ fs) h v = (
    sym (
        same_bytes_sound (openssl hmac_key (entry_bytes e)) f.c_digest (
          ok_injective (
            sym (validate_log_entry_lem openssl code_size platform tlog pre e f fs free h)
            ∙ v (suc (length pre)) (omega (arith, length-append {0} pre (e ∷ f ∷ fs)))))),
    codes_from (pre ++ (e ∷ [])) (f ∷ fs) (subst (λ l. Holds log_entry tlog l free) regroup h) (
        subst (λ l. (i : ℕ) → i < length l → validate_log_entry openssl platform i tlog ≡ ok true)
          regroup v),
  )
    where
      regroup : pre ++ (e ∷ f ∷ fs) ≡ (pre ++ (e ∷ [])) ++ (f ∷ fs)
      regroup = sym (append_assoc pre (e ∷ []) (f ∷ fs))

  valid_from :
      (pre suf : List LogEntry)
      → Holds log_entry tlog (pre ++ suf) free
      → Linked openssl suf
      → (j : ℕ) → suc j < length suf
      → validate_log_entry openssl platform (suc (length pre + j)) tlog ≡ ok true
  valid_from pre [] h l j small = absurd (omega arith)
  valid_from pre (e ∷ []) h l j small = absurd (omega arith)
  valid_from pre (e ∷ f ∷ fs) h l zero small =
      ap (λ i. validate_log_entry openssl platform i tlog) (omega arith)
      ∙ validate_log_entry_lem openssl code_size platform tlog pre e f fs free h
      ∙ ap ok (ap (λ d. same_bytes d f.c_digest) (sym l.0) ∙ same_bytes_refl f.c_digest)
  valid_from pre (e ∷ f ∷ fs) h l (suc j) small =
      ap (λ i. validate_log_entry openssl platform i tlog) index
      ∙ valid_from (pre ++ (e ∷ [])) (f ∷ fs)
          (subst (λ k. Holds log_entry tlog k free) (sym (append_assoc pre (e ∷ []) (f ∷ fs))) h)
          l.1 j (omega arith)
    where
      index : suc (length pre + suc j) ≡ suc (length (pre ++ (e ∷ [])) + j)
      index = omega (arith, length-append {0} pre (e ∷ []))

  valid_at :
      (es : List LogEntry)
      → Holds log_entry tlog es free
      → Linked openssl es
      → (i : ℕ) → i < length es
      → validate_log_entry openssl platform i tlog ≡ ok true
  unfolding validate_log_entry
  valid_at es h l zero small = refl
  valid_at es h l (suc j) small =
      ap (λ i. validate_log_entry openssl platform i tlog) (omega arith)
      ∙ valid_from [] es h l j small

  -- On memory that holds a list of entries, validate_log_entry answers true for every index just
  -- when the digest of each entry but the first is the HMAC of the bytes of the entry before it;
  -- the first entry's digest is not looked at, and no digest covers its own entry. For an HMAC of
  -- 32 bytes.
  pub validate_log_entry-Linked :
      (es : List LogEntry)
      → Holds log_entry tlog es free
      → ((i : ℕ) → i < length es → validate_log_entry openssl platform i tlog ≡ ok true)
        ↔ Linked openssl es
  validate_log_entry-Linked es h = (codes_from [] es h, valid_at es h)

-- The entry is determined by its bytes.
sizes_of :
    (e : LogEntry)
    → Fits log_entry e
    → load_fields 0 (field_sizes log_entry) (entry_bytes e ++ []) ≡ some (entry_fields e)
sizes_of e (c, d, a, s) =
    ap (λ ns. load_fields 0 ns (entry_bytes e ++ [])) widths
    ∙ load_fields-concat (entry_fields e) 0 [] [] refl
  where
    widths :
        field_sizes log_entry
        ≡ length (encode_le 4 e.sequencer)
          ∷ length e.context
          ∷ length e.c_digest
          ∷ length e.authenticator
          ∷ []
    widths = rw (c, d, a, length-encode_le 4 e.sequencer)

abbrev rebuild : LogEntry → List Bytes → LogEntry
rebuild e (n ∷ c ∷ d ∷ a ∷ []) = record e { context = c; c_digest = d; authenticator = a }
rebuild e fs = e

abbrev first_of : List Bytes → Bytes
first_of [] = []
first_of (f ∷ fs) = f

entry_of_fields :
    (e f : LogEntry) → e.sequencer ≡ f.sequencer → entry_fields e ≡ entry_fields f → e ≡ f
entry_of_fields e f n h = ap (rebuild e) h ∙ ap (λ k. record f { sequencer = k }) n

number_of_fields :
    (e f : LogEntry)
    → e.sequencer < u32_mod
    → f.sequencer < u32_mod
    → entry_fields e ≡ entry_fields f
    → e.sequencer ≡ f.sequencer
number_of_fields e f small small' h = omega (
  arith,
  small,
  small',
  sym (decode-encode_u32 e.sequencer)
      ∙ ap (λ l. decode_le (first_of l)) h
      ∙ decode-encode_u32 f.sequencer,
)

pub entry_bytes-injective :
    (e f : LogEntry) → Fits log_entry e → Fits log_entry f → entry_bytes e ≡ entry_bytes f → e ≡ f
entry_bytes-injective e f (ec, ed, ea, es) (fc, fd, fa, fs) h =
    let same = some_injective (
      sym (sizes_of e (ec, ed, ea, es))
      ∙ ap (λ b. load_fields 0 (field_sizes log_entry) (b ++ [])) h
      ∙ sizes_of f (fc, fd, fa, fs)) in
    entry_of_fields e f (number_of_fields e f es fs same) same

-- Two different texts with the same code.
abbrev pub Collision : (Bytes → Bytes → Bytes) → Type 0
Collision openssl = (m n : Bytes) × (m ≢ n) × (openssl hmac_key m ≡ openssl hmac_key n)

module _ (openssl : Bytes → Bytes → Bytes) where
  same_code : (m n : Bytes) → openssl hmac_key m ≡ openssl hmac_key n → (m ≡ n) ⊎ Collision openssl
  same_code m n h = elim (Bool-cases (same_bytes m n)) [
    | inl e ↦ inl (same_bytes_sound m n e)
    | inr e ↦ inr (m, n, same_bytes_differ m n e, h)
  ]

  tamper_from :
      (prev prev' : Bytes) (i : ℕ) (es fs : List LogEntry)
      → length es ≡ length fs
      → All (Fits log_entry) es
      → All (Fits log_entry) fs
      → IsChained openssl prev i es
      → IsChained openssl prev' i fs
      → last_bytes prev es ≡ last_bytes prev' fs
      → ((es ≡ fs) × (prev ≡ prev')) ⊎ Collision openssl
  tamper_from prev prev' i [] [] n a b c d h = inl (refl, h)
  tamper_from prev prev' i [] (f ∷ fs) n a b c d h = absurd (omega arith)
  tamper_from prev prev' i (e ∷ es) [] n a b c d h = absurd (omega arith)
  tamper_from prev prev' i (e ∷ es) (f ∷ fs) n a b c d h =
      elim (tamper_from (entry_bytes e) (entry_bytes f) (suc i) es fs (omega (arith, n)) a.1 b.1 c.2
        d.2 h) [
          | inr k ↦ inr k
          | inl (same, bytes) ↦ cons_case same (entry_bytes-injective e f a.0 b.0 bytes)
        ]
    where
      cons_case : es ≡ fs → e ≡ f → ((e ∷ es ≡ f ∷ fs) × (prev ≡ prev')) ⊎ Collision openssl
      cons_case same first =
          elim (same_code prev prev' (sym c.0 ∙ ap (λ x. x.c_digest) first ∙ d.0)) [
            | inl p ↦ inl (ap₂ ◌∷◌ first same, p)
            | inr k ↦ inr k
          ]

  tamper_evident :
      (es fs : List LogEntry)
      → length es ≡ length fs
      → All (Fits log_entry) es
      → All (Fits log_entry) fs
      → IsChained openssl (zeros slot_size) 0 es
      → IsChained openssl (zeros slot_size) 0 fs
      → last_bytes (zeros slot_size) es ≡ last_bytes (zeros slot_size) fs
      → (es ≡ fs) ⊎ Collision openssl
  tamper_evident es fs n a b c d h =
      elim (tamper_from (zeros slot_size) (zeros slot_size) 0 es fs n a b c d h) [
        | inl (same, p) ↦ inl same
        | inr k ↦ inr k
      ]

  -- Two well-formed logs of the same length whose tails are the same bytes hold the same entries,
  -- or they contain two different texts with the same code.
  pub tail_commits :
      (log log' : TrustedLog) (es fs : List LogEntry) (free free' : ℕ)
      → IsLog openssl log es free
      → IsLog openssl log' fs free'
      → length es ≡ length fs
      → load log.tail slot_size log.mem_log ≡ load log'.tail slot_size log'.mem_log
      → (es ≡ fs) ⊎ Collision openssl
  tail_commits log log' es fs free free' v w n same =
      tamper_evident es fs n v.holds.fits w.holds.fits v.chained w.chained
        (some_injective (sym v.last ∙ same ∙ w.last))
