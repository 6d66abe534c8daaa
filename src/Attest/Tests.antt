-- ===== src/Attest/Tests.antt =====
-- Runs of crypto/signed_msg.h at concrete inputs, with a stand-in for the HMAC that keeps the sum of
-- the data.
use replication_protos.Prelude.{
  ◌+◌, ◌%◌, inl, ◌≡◌, ◌≢◌, refl, true, none, some, [], ◌∷◌, ◌++◌, arith, Bytes, zeros, load, length,
  encode_le, decode_le, length-encode_le, u32_mod, minus_one,
}
use replication_protos.Attest.{
  native, fpga, hmac_key, hmac_size, sign_msg, verify_get_msg, verify_msg,
}
use replication_protos.Attest.Signed.{verify-sign_msg, signed_bytes, verify-signed}
use replication_protos.Attest.Verified.{
  verify_get_msg_sound, verify_get_msg_wrong, verify_get_msg_fault, verify_msg_accepts,
}

-- A code of 32 bytes.
abbrev pub sum_code : Bytes → Bytes → Bytes
sum_code key m = encode_le 32 (decode_le m)

pub sum_code_size : (k m : Bytes) → length (sum_code k m) ≡ hmac_size
sum_code_size k m = length-encode_le 32 (decode_le m)

abbrev text : Bytes
text = 5 ∷ 6 ∷ []

verify-sign_msg_example :
    (b : Bytes) × (sign_msg sum_code fpga text (zeros 42) ≡ some (true, b))
    × (verify_get_msg sum_code fpga b ≡ some (length text % u32_mod, text))
verify-sign_msg_example =
    verify-sign_msg sum_code sum_code_size fpga text (zeros 42) refl (omega arith)

verified : verify_get_msg sum_code native (signed_bytes sum_code text) ≡ some (2, text)
verified = verify-signed sum_code sum_code_size native text (omega arith)

verify_get_msg_sound_example :
    (load 0 hmac_size (signed_bytes sum_code text) ≡ some (sum_code hmac_key text))
    × (2 ≡ length text % u32_mod)
verify_get_msg_sound_example =
    verify_get_msg_sound sum_code sum_code_size native (signed_bytes sum_code text) 2 text verified
      (omega arith)

-- The code of another text.
abbrev pub forged : Bytes
forged = sum_code hmac_key text ++ (encode_le 8 1 ++ (9 ∷ []))

held_size : load hmac_size 8 forged ≡ some (encode_le 8 1)
unfolding load encode_le decode_le
held_size = refl

held_text : load (hmac_size + 8) (decode_le (encode_le 8 1)) forged ≡ some (9 ∷ [])
unfolding load encode_le decode_le
held_text = refl

held_code : load 0 hmac_size forged ≡ some (sum_code hmac_key text)
unfolding load encode_le decode_le
held_code = refl

differ : sum_code hmac_key text ≢ sum_code hmac_key (9 ∷ [])
unfolding encode_le decode_le
differ = ground arith

pub forged_code : verify_get_msg sum_code native forged ≡ some (minus_one, zeros 1)
forged_code =
    verify_get_msg_wrong sum_code sum_code_size native forged (encode_le 8 1) (9 ∷ [])
      (sum_code hmac_key text) held_size held_text held_code differ

verify_get_msg_fault_example : verify_get_msg sum_code native (zeros 39) ≡ none
verify_get_msg_fault_example =
    verify_get_msg_fault sum_code sum_code_size native (zeros 39) (inl (omega arith))

verify_msg_accepts_example : verify_msg sum_code forged ≡ some true
verify_msg_accepts_example =
    verify_msg_accepts sum_code sum_code_size native forged (encode_le 8 1) (9 ∷ []) held_size
      held_text
