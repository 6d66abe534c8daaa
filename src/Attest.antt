-- ===== src/Attest.antt =====
-- Attested messages: crypto/hmac_lib.h, tnic_mock_api/api.h and the part of crypto/signed_msg.h
-- that is compiled, `HMAC_N`. OpenSSL is a third-party library: its HMAC-SHA-256 is the parameter
-- `openssl`, from the key and the data to the code. The delays that the mock of the platforms waits
-- are left out.
pub mod Signed
pub mod Verified
pub mod Tests
use Prim.Native.Char.{code}
use Prim.Native.String.{String}
use replication_protos.Prelude.{
  ℕ, ◌+◌, ◌-◌, ◌%◌, Bool, true, false, not, Option, none, some, List, [], ◌∷◌, ◌++◌, arith, ◌==◌,
  leb, if◌then◌else◌, ◌>>=◌, Bytes, zeros, load, store, same_bytes, length, encode_le, decode_le,
  u32_mod, u64_mod, minus_one, take,
}

codes : String → Bytes
codes String.[] = []
codes (String.◌∷◌ c s) = code c ∷ codes s

-- The key that the source has written out.
pub hmac_key : Bytes
hmac_key = codes "LElxWRonjVkCoArWzZqliiSEtmlbaCfZaGkrSweWJKQkgQsyrBUpSusAcPcGDfFh"

-- `EVP_MAX_MD_SIZE`, and `_hmac_size`, which `_max_hash_sz` and `signature_size` equal.
abbrev pub max_md_size : ℕ
max_md_size = 64

abbrev pub hmac_size : ℕ
hmac_size = 32

-- The builds of the programs: `FPGA`, `AMD`, `SGX` or none of these macros.
pub data Platform : Type 0 where
  fpga amd sgx native : Platform

module _ (openssl : Bytes → Bytes → Bytes) where
  -- The digest's vector keeps its `EVP_MAX_MD_SIZE` bytes, and the length comes beside it.
  unfoldable pub hmac_sha256 : Bytes → Bytes × ℕ
  hmac_sha256 input =
      let mac = openssl hmac_key input in (mac ++ zeros (max_md_size - length mac), length mac)

  unfoldable pub get_attestation : Platform → Bytes → Bytes × ℕ
  get_attestation native input = hmac_sha256 input
  get_attestation sgx input = hmac_sha256 input
  get_attestation amd input = hmac_sha256 input
  get_attestation fpga input = hmac_sha256 input

  module _ (platform : Platform) where
    -- The buffer is written only if the digest has the expected size.
    unfoldable pub sign_msg : Bytes → Bytes → Option (Bool × Bytes)
    sign_msg plain_text signed_msg_buf =
        let (signed_digest, sz) = get_attestation platform plain_text in
        if sz == 0
        then some (false, signed_msg_buf)
        else if not (sz == hmac_size)
        then some (false, signed_msg_buf)
        else (do
          digest ← load 0 sz signed_digest
          b1 ← store 0 digest signed_msg_buf
          b2 ← store sz (encode_le 8 (length plain_text)) b1
          b3 ← store (sz + 8) plain_text b2
          some (true, b3))

    -- The result's number is an `int`, as its bit pattern.
    unfoldable pub verify_get_msg : Bytes → Option (ℕ × Bytes)
    verify_get_msg signed_msg_buff = do
      size ← load hmac_size 8 signed_msg_buff
      let plain_text_sz = decode_le size
      plain_text ← load (hmac_size + 8) plain_text_sz signed_msg_buff
      let (signed_digest, sz) = get_attestation platform plain_text
      calc_hash ← load 0 hmac_size signed_digest
      recv_hash ← load 0 hmac_size signed_msg_buff
      if same_bytes calc_hash recv_hash
          then some (plain_text_sz % u32_mod, plain_text)
          else some (minus_one, zeros 1)

  -- `verify_msg` answers `true` on both branches.
  unfoldable pub verify_msg : Bytes → Option Bool
  verify_msg signed_msg_buff = do
    size ← load hmac_size 8 signed_msg_buff
    plain_text ← load (hmac_size + 8) (decode_le size) signed_msg_buff
    let (signed_digest, sz) = hmac_sha256 plain_text
    calc_hash ← load 0 hmac_size signed_digest
    recv_hash ← load 0 hmac_size signed_msg_buff
    if same_bytes calc_hash recv_hash then some true else some true
