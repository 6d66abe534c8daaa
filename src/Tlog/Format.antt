-- ===== src/Tlog/Format.antt =====
-- trusted-log/msg_format.h: requests (`p_msg`) and acknowledgements (`ack_msg`) as bytes. The arrays of
-- a struct are lists of bytes, which have the size of the array where `Fits` says so.
use replication_protos.Prelude.{
  ℕ, ◌+◌, ◌≡◌, Bool, not, Option, none, some, List, [], ◌∷◌, ◌==◌, ◌>>=◌, Bytes, load, store_fields,
  load_fields, encode_le, decode_le, length,
}

abbrev pub cmd_size : ℕ
cmd_size = 16

abbrev pub out_size : ℕ
out_size = 16

-- `HashSize`
abbrev pub hash_size : ℕ
hash_size = 32

abbrev pub ack_size : ℕ
ack_size = 1

-- `sizeof(p_msg)` and `sizeof(ack_msg)`, the latter with 3 bytes of padding behind `output`.
abbrev pub p_msg_size : ℕ
p_msg_size = 132

abbrev pub ack_msg_size : ℕ
ack_msg_size = 76

-- `kMsgSize`
abbrev pub msg_size : ℕ
msg_size = p_msg_size + ack_msg_size

pub record PMetadata : Type 0 where
  pub cnt : ℕ
  pub prev_h : Bytes
  pub f1_prev : Bytes
  pub f2_prev : Bytes

pub record PMsg : Type 0 where
  pub cmd : Bytes
  pub output : Bytes
  pub meta : PMetadata

pub record AckMsg : Type 0 where
  pub ack : Bytes
  pub output : Bytes
  pub cmt : ℕ
  pub sender : ℕ
  pub state : Bytes
  pub cmd : Bytes

-- The fields of a request in the order in which they are copied.
abbrev pub p_fields : PMsg → List Bytes
p_fields m =
    m.cmd ∷ m.output ∷ encode_le 4 m.meta.cnt ∷ m.meta.prev_h ∷ m.meta.f1_prev ∷ m.meta.f2_prev ∷ []

unfoldable pub memcpy_p_msg_into_buffer : PMsg → Bytes → Option Bytes
memcpy_p_msg_into_buffer msg buf = store_fields 0 (p_fields msg) buf

abbrev pub p_msg_of : List Bytes → Option PMsg
p_msg_of (cmd ∷ output ∷ cnt ∷ prev_h ∷ f1_prev ∷ f2_prev ∷ []) = some (record {
  cmd = cmd;
  output = output;
  meta = record { cnt = decode_le cnt; prev_h = prev_h; f1_prev = f1_prev; f2_prev = f2_prev };
})
p_msg_of fs = none

unfoldable pub memcpy_into_p_msg : Bytes → Option PMsg
memcpy_into_p_msg buf = do
  fields ← load_fields 0 (cmd_size ∷ out_size ∷ 4 ∷ hash_size ∷ hash_size ∷ hash_size ∷ []) buf
  p_msg_of fields

-- `p_get_cmd`, `p_get_output`, `p_get_prev_h`, `p_get_prev_f1` and `p_get_prev_f2`, as offsets.
abbrev pub p_get_output : ℕ
p_get_output = out_size

abbrev pub p_get_prev_h : ℕ
p_get_prev_h = out_size + cmd_size + 4

abbrev pub p_get_prev_f1 : ℕ
p_get_prev_f1 = p_get_prev_h + hash_size

abbrev pub p_get_prev_f2 : ℕ
p_get_prev_f2 = p_get_prev_f1 + hash_size

-- The state and the command of an acknowledgement are not copied.
abbrev pub ack_fields : AckMsg → List Bytes
ack_fields m = m.ack ∷ m.output ∷ encode_le 4 m.cmt ∷ encode_le 4 m.sender ∷ []

unfoldable pub memcpy_ack_into_buffer : AckMsg → Bytes → Option Bytes
memcpy_ack_into_buffer msg buf = store_fields 0 (ack_fields msg) buf

unfoldable pub f_get_ack_val : Bytes → Option Bool
f_get_ack_val buf = do response ← load 0 ack_size buf; some (not (decode_le response == 0))

unfoldable pub f_get_cmt : Bytes → Option ℕ
f_get_cmt buf = do cmt ← load (ack_size + out_size) 4 buf; some (decode_le cmt)

unfoldable pub f_get_sender : Bytes → Option ℕ
f_get_sender buf = do sender ← load (ack_size + out_size + 4) 4 buf; some (decode_le sender)

-- As an offset: 8 bytes behind the start of the output.
abbrev pub f_get_state : ℕ
f_get_state = ack_size + 4 + 4

pub record Fits (m : PMsg) : Type 0 where
  pub cmd_fits : length m.cmd ≡ cmd_size
  pub output_fits : length m.output ≡ out_size
  pub prev_h_fits : length m.meta.prev_h ≡ hash_size
  pub f1_prev_fits : length m.meta.f1_prev ≡ hash_size
  pub f2_prev_fits : length m.meta.f2_prev ≡ hash_size
