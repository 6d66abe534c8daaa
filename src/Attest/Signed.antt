-- ===== src/Attest/Signed.antt =====
-- What signing and verifying promise of one another, for an HMAC of 32 bytes.
use replication_protos.Prelude.{
  ◌+◌, ◌%◌, ◌<◌, ◌≡◌, ◌≢◌, inl, inr, refl, ap, sym, ◌∙◌, true, false, some, ◌++◌, append-nil,
  append_assoc, arith, Bytes, zeros, load, store, load-append, load_prefix, load_all, load-skip,
  store_front, store_behind, drop_all, length-drop, same_bytes, same_bytes_refl, same_bytes_sound,
  length, length-append, encode_le, length-encode_le, decode-encode_u64, u32_mod, u64_mod, drop,
  Bool-cases,
}
use replication_protos.Attest.{
  hmac_key, hmac_size, Platform, native, sgx, amd, fpga, hmac_sha256, get_attestation, sign_msg,
  verify_get_msg,
}

-- A message as it is sent: the code, the length, the text.
abbrev pub signed_bytes : (Bytes → Bytes → Bytes) → Bytes → Bytes
signed_bytes openssl m = openssl hmac_key m ++ (encode_le 8 (length m) ++ m)

pub same_bytes_ne : (xs ys : Bytes) → xs ≢ ys → same_bytes xs ys ≡ false
same_bytes_ne xs ys h = elim (Bool-cases (same_bytes xs ys)) [
  | inl e ↦ absurd (h (same_bytes_sound xs ys e))
  | inr e ↦ e
]

module _ (openssl : Bytes → Bytes → Bytes)
    (code_size : (k m : Bytes) → length (openssl k m) ≡ hmac_size) (platform : Platform) where
  pub length-signed_bytes : (m : Bytes) → length (signed_bytes openssl m) ≡ hmac_size + 8 + length m
  length-signed_bytes m = omega (
    arith,
    length-append {0} (openssl hmac_key m) (encode_le 8 (length m) ++ m),
    length-append {0} (encode_le 8 (length m)) m,
    length-encode_le 8 (length m),
    code_size hmac_key m,
  )

  pub hmac_sha256_lem :
      (m : Bytes) → hmac_sha256 openssl m ≡ (openssl hmac_key m ++ zeros 32, hmac_size)
  unfolding hmac_sha256
  hmac_sha256_lem m = rw (code_size hmac_key m)

  -- All builds compute the same code.
  pub get_attestation_lem :
      (m : Bytes) (p : Platform)
      → get_attestation openssl p m ≡ (openssl hmac_key m ++ zeros 32, hmac_size)
  unfolding get_attestation
  get_attestation_lem m native = hmac_sha256_lem m
  get_attestation_lem m sgx = hmac_sha256_lem m
  get_attestation_lem m amd = hmac_sha256_lem m
  get_attestation_lem m fpga = hmac_sha256_lem m

  pub load_code :
      (m : Bytes) → load 0 hmac_size (openssl hmac_key m ++ zeros 32) ≡ some (openssl hmac_key m)
  load_code m = load_prefix hmac_size (openssl hmac_key m) (zeros 32) (sym (code_size hmac_key m))

  length-prefix : (m : Bytes) → 40 ≡ length (openssl hmac_key m ++ encode_le 8 (length m))
  length-prefix m = omega (
    arith,
    length-append {0} (openssl hmac_key m) (encode_le 8 (length m)),
    length-encode_le 8 (length m),
    code_size hmac_key m,
  )

  store_text :
      (m rest : Bytes)
      → length rest ≡ length m
      → store 40 m (openssl hmac_key m ++ (encode_le 8 (length m) ++ rest))
        ≡ some (signed_bytes openssl m)
  store_text m rest e =
      ap (store 40 m) (sym (append_assoc (openssl hmac_key m) (encode_le 8 (length m)) rest))
      ∙ store_behind 40 m (openssl hmac_key m ++ encode_le 8 (length m)) rest (length-prefix m)
          (omega arith)
      ∙ rw (drop_all (length m) rest (omega arith), append-nil m)
          (ap some (append_assoc (openssl hmac_key m) (encode_le 8 (length m)) m))

  load_text : (m : Bytes) → load 40 (length m) (signed_bytes openssl m) ≡ some m
  load_text m =
      ap (load 40 (length m)) (sym (append_assoc (openssl hmac_key m) (encode_le 8 (length m)) m))
      ∙ load-skip 40 0 (length m) (openssl hmac_key m ++ encode_le 8 (length m)) m (length-prefix m)
      ∙ load_all (length m) m refl

  pub sign_msg_lem :
      (m buf : Bytes)
      → length buf ≡ hmac_size + 8 + length m
      → sign_msg openssl platform m buf ≡ some (true, signed_bytes openssl m)
  unfolding sign_msg
  sign_msg_lem m buf e = rw (
    get_attestation_lem m platform,
    load_code m,
    store_front (openssl hmac_key m) buf (omega (arith, code_size hmac_key m)),
    store_behind hmac_size (encode_le 8 (length m)) (openssl hmac_key m)
        (drop (length (openssl hmac_key m)) buf) (sym (code_size hmac_key m))
        (omega (
          arith,
          length-drop {0} (length (openssl hmac_key m)) buf,
          length-encode_le 8 (length m),
          code_size hmac_key m,
        )),
    store_text m (drop (length (encode_le 8 (length m))) (drop (length (openssl hmac_key m)) buf)) (
        omega (
          arith,
          length-drop {0} (length (encode_le 8 (length m)))
              (drop (length (openssl hmac_key m)) buf),
          length-drop {0} (length (openssl hmac_key m)) buf,
          length-encode_le 8 (length m),
          code_size hmac_key m,
        )),
  )

  pub verify-signed :
      (m : Bytes)
      → length m < u64_mod
      → verify_get_msg openssl platform (signed_bytes openssl m) ≡ some (length m % u32_mod, m)
  unfolding verify_get_msg
  verify-signed m h = rw (
    load-append hmac_size 8 (openssl hmac_key m) (encode_le 8 (length m)) m
        (sym (code_size hmac_key m)) (sym (length-encode_le 8 (length m))),
    decode-encode_u64 (length m),
    mod_small,
    load_text m,
    get_attestation_lem m platform,
    load_code m,
    load_prefix hmac_size (openssl hmac_key m) (encode_le 8 (length m) ++ m)
        (sym (code_size hmac_key m)),
    same_bytes_refl (openssl hmac_key m),
  )
    where
      mod_small : length m % u64_mod ≡ length m
      mod_small = omega arith

  -- A message shorter than 2^64 bytes that sign_msg signs into a buffer of the right size is
  -- accepted by verify_get_msg on every build of the platform, which gives the message back with
  -- its length modulo 2^32, for an HMAC of 32 bytes.
  pub verify-sign_msg :
      (m buf : Bytes)
      → length buf ≡ hmac_size + 8 + length m
      → length m < u64_mod
      → (b : Bytes) × (sign_msg openssl platform m buf ≡ some (true, b))
        × (verify_get_msg openssl platform b ≡ some (length m % u32_mod, m))
  verify-sign_msg m buf size small =
      (signed_bytes openssl m, sign_msg_lem m buf size, verify-signed m small)
