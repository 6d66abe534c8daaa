-- ===== src/Attest/Verified.antt =====
-- What `verify_get_msg` and `verify_msg` (crypto/signed_msg.h) accept and refuse.
use replication_protos.Prelude.{
  ℕ, ◌+◌, ◌%◌, ◌<◌, ◌≡◌, ◌≢◌, ◌⊎◌, inl, inr, ap, sym, ◌∙◌, Bool, true, Option, none, some, ◌++◌,
  arith, if◌then◌else◌, >>=-eq-some, Bytes, zeros, load, load-append_some, load_fault, load_eq,
  load_bound, same_bytes, same_bytes_sound, length, length-load, decode_le, u32_mod, minus_one,
}
use replication_protos.Attest.{
  hmac_key, hmac_size, Platform, get_attestation, verify_get_msg, verify_msg,
}
use replication_protos.Attest.Signed.{
  same_bytes_ne, hmac_sha256_lem, load_code, get_attestation_lem,
}

-- The last test of `verify_get_msg`.
accepted :
    (code mac found text : Bytes) (k n : ℕ)
    → if◌then◌else◌ {A = Option (ℕ × Bytes)}
        (same_bytes code mac)
        (some (k, found))
        (some (minus_one, zeros 1))
      ≡ some (n, text)
    → n ≢ minus_one
    → (same_bytes code mac ≡ true) × (k ≡ n) × (found ≡ text)
accepted code mac found text k n e h = ground arith

module _ (openssl : Bytes → Bytes → Bytes)
    (code_size : (k m : Bytes) → length (openssl k m) ≡ hmac_size) (platform : Platform) where
  -- Whatever verify_get_msg accepts with a number other than -1 starts with the HMAC of the text
  -- that it returns, and the number is the length of that text modulo 2^32, for an HMAC of 32
  -- bytes.
  pub verify_get_msg_sound :
      (b : Bytes) (n : ℕ) (text : Bytes)
      → verify_get_msg openssl platform b ≡ some (n, text)
      → n ≢ minus_one
      → (load 0 hmac_size b ≡ some (openssl hmac_key text)) × (n ≡ length text % u32_mod)
  unfolding verify_get_msg
  verify_get_msg_sound b n text e h =
      let (size, e1, r1) = >>=-eq-some (load hmac_size 8 b) _ e in
      let (found, e2, r2) = >>=-eq-some (load (hmac_size + 8) (decode_le size) b) _ r1 in
      let (mac, e3, r3) = >>=-eq-some (load 0 hmac_size b) _ (
        rw
          (
            get_attestation_lem openssl code_size platform found platform,
            load_code openssl code_size platform found,
          )
          at r2) in
      let (same, n_eq, text_eq) =
        accepted (openssl hmac_key found) mac found text (decode_le size % u32_mod) n r3 h in
      (
        e3
            ∙ ap some (
                sym (same_bytes_sound (openssl hmac_key found) mac same)
                ∙ ap (openssl hmac_key) text_eq),
        sym n_eq
            ∙ ap (λ k. k % u32_mod)
                (sym (length-load (hmac_size + 8) (decode_le size) b e2) ∙ ap length text_eq),
      )

  -- A block whose code is not the HMAC of the text that its length field delimits gets -1 and one
  -- zero byte from verify_get_msg, for an HMAC of 32 bytes.
  pub verify_get_msg_wrong :
      (b size text mac : Bytes)
      → load hmac_size 8 b ≡ some size
      → load (hmac_size + 8) (decode_le size) b ≡ some text
      → load 0 hmac_size b ≡ some mac
      → mac ≢ openssl hmac_key text
      → verify_get_msg openssl platform b ≡ some (minus_one, zeros 1)
  unfolding verify_get_msg
  verify_get_msg_wrong b size text mac e1 e2 e3 h = rw (
    e1,
    e2,
    get_attestation_lem openssl code_size platform text platform,
    load_code openssl code_size platform text,
    e3,
    same_bytes_ne (openssl hmac_key text) mac (λ p. h (sym p)),
  )

  -- verify_get_msg reads out of bounds of a block that is shorter than the code and the length
  -- field, or shorter than these and the text that the length field announces.
  pub verify_get_msg_fault :
      (b : Bytes)
      → length b < hmac_size + 8
        ⊎ ((size : Bytes) × (load hmac_size 8 b ≡ some size)
            × (length b < hmac_size + 8 + decode_le size))
      → verify_get_msg openssl platform b ≡ none
  unfolding verify_get_msg
  verify_get_msg_fault b (inl h) = rw (load_fault hmac_size 8 b h)
  verify_get_msg_fault b (inr (size, e, h)) =
      rw (e, load_fault (hmac_size + 8) (decode_le size) b h)

  either_way : (t : Bool) → if◌then◌else◌ {A = Option Bool} t (some true) (some true) ≡ some true
  either_way t = ground arith

  -- verify_msg answers true for every block that holds as much text as its length field says,
  -- whatever code stands in front, for an HMAC of 32 bytes.
  pub verify_msg_accepts :
      (b size text : Bytes)
      → load hmac_size 8 b ≡ some size
      → load (hmac_size + 8) (decode_le size) b ≡ some text
      → verify_msg openssl b ≡ some true
  unfolding verify_msg
  verify_msg_accepts b size text e1 e2 =
      rw
        (
          e1,
          e2,
          hmac_sha256_lem openssl code_size platform text,
          load_code openssl code_size platform text,
          load_eq 0 hmac_size b (omega (arith, load_bound hmac_size 8 b e1)),
        )
        (either_way _)

-- What follows the text of a message is not looked at.
module _ (openssl : Bytes → Bytes → Bytes) (platform : Platform) where
  pub verify-append :
      (b more : Bytes) {r : ℕ × Bytes}
      → verify_get_msg openssl platform b ≡ some r
      → verify_get_msg openssl platform (b ++ more) ≡ some r
  unfolding verify_get_msg
  verify-append b more e =
      let (size, e1, r1) = >>=-eq-some (load hmac_size 8 b) _ e in
      let (text, e2, r2) = >>=-eq-some (load (hmac_size + 8) (decode_le size) b) _ r1 in
      let (code, e3, r3) =
        >>=-eq-some (load 0 hmac_size (get_attestation openssl platform text).0) _ r2 in
      let (mac, e4, r4) = >>=-eq-some (load 0 hmac_size b) _ r3 in
      rw
        (
          load-append_some hmac_size 8 b more e1,
          load-append_some (hmac_size + 8) (decode_le size) b more e2,
          e3,
          load-append_some 0 hmac_size b more e4,
        )
        r4
