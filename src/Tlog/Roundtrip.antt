-- ===== src/Tlog/Roundtrip.antt =====
-- What is read back from the messages of trusted-log/msg_format.h.
use replication_protos.Prelude.{
  ◌%◌, ◌≤◌, ◌≡◌, refl, ap, sym, ◌∙◌, some, [], ◌∷◌, ◌++◌, arith, Bytes, load, load_fields,
  store_fields_all, store_fields-behind, load_fields-concat, load-concat, concat, length-concat,
  not, ◌==◌, drop-append_exact, drop, encode_le, length-encode_le, decode_le, decode-encode_u32,
  length, u32_mod,
}
use replication_protos.Tlog.Format.{
  PMsg, AckMsg, p_msg_size, ack_size, out_size, cmd_size, hash_size, memcpy_p_msg_into_buffer,
  memcpy_into_p_msg, p_fields, ack_fields, memcpy_ack_into_buffer, f_get_ack_val, f_get_cmt,
  f_get_sender, Fits,
}

module _ (m : PMsg) (f : Fits m) where
  pub length-p_fields : length (concat (p_fields m)) ≡ p_msg_size
  length-p_fields = omega (
    arith,
    f.cmd_fits,
    f.output_fits,
    f.prev_h_fits,
    f.f1_prev_fits,
    f.f2_prev_fits,
    length-encode_le 4 m.meta.cnt,
    length-concat (p_fields m),
  )

  pub memcpy_p_msg_into_buffer_lem :
      (buf : Bytes)
      → length buf ≡ p_msg_size
      → memcpy_p_msg_into_buffer m buf ≡ some (concat (p_fields m))
  unfolding memcpy_p_msg_into_buffer
  memcpy_p_msg_into_buffer_lem buf e = store_fields_all (p_fields m) buf (e ∙ sym length-p_fields)

  pub memcpy_into_p_msg-concat :
      (more : Bytes)
      → memcpy_into_p_msg (concat (p_fields m) ++ more)
        ≡ some (record m { meta = record m.meta { cnt = m.meta.cnt % u32_mod } })
  unfolding memcpy_into_p_msg
  memcpy_into_p_msg-concat more =
      rw (sizes_eq, load_fields-concat (p_fields m) 0 [] more refl, decode-encode_u32 m.meta.cnt)
    where
      sizes_eq :
          load_fields 0
            (cmd_size ∷ out_size ∷ 4 ∷ hash_size ∷ hash_size ∷ hash_size ∷ [])
            (concat (p_fields m) ++ more)
          ≡ load_fields 0
              (length m.cmd
                ∷ length m.output
                ∷ length (encode_le 4 m.meta.cnt)
                ∷ length m.meta.prev_h
                ∷ length m.meta.f1_prev
                ∷ length m.meta.f2_prev
                ∷ [])
              (concat (p_fields m) ++ more)
      sizes_eq = rw (
        f.cmd_fits,
        f.output_fits,
        f.prev_h_fits,
        f.f1_prev_fits,
        f.f2_prev_fits,
        length-encode_le 4 m.meta.cnt,
      )

  -- memcpy_into_p_msg reads back the request that memcpy_p_msg_into_buffer writes into a buffer of
  -- 132 bytes, its counter modulo 2^32, whatever follows the buffer. The request's arrays have the
  -- sizes of their types.
  pub memcpy_into_p_msg-memcpy_p_msg_into_buffer :
      (buf more : Bytes)
      → length buf ≡ p_msg_size
      → (b : Bytes) × (memcpy_p_msg_into_buffer m buf ≡ some b)
        × (memcpy_into_p_msg (b ++ more)
            ≡ some (record m { meta = record m.meta { cnt = m.meta.cnt % u32_mod } }))
  memcpy_into_p_msg-memcpy_p_msg_into_buffer buf more e =
      (concat (p_fields m), memcpy_p_msg_into_buffer_lem buf e, memcpy_into_p_msg-concat more)

-- An acknowledgement written over the start of a larger buffer.
module _ (m : AckMsg) (ack_fits : length m.ack ≡ ack_size)
    (output_fits : length m.output ≡ out_size) where
  pub length-ack_fields : length (concat (ack_fields m)) ≡ 25
  length-ack_fields = omega (
    arith,
    ack_fits,
    output_fits,
    length-encode_le 4 m.cmt,
    length-encode_le 4 m.sender,
    length-concat (ack_fields m),
  )

  pub memcpy_ack_into_buffer_lem :
      (buf : Bytes)
      → 25 ≤ length buf
      → memcpy_ack_into_buffer m buf ≡ some (concat (ack_fields m) ++ drop 25 buf)
  unfolding memcpy_ack_into_buffer
  memcpy_ack_into_buffer_lem buf h =
      store_fields-behind (ack_fields m) 0 [] buf refl (omega (arith, length-ack_fields))
      ∙ ap (λ n. some (concat (ack_fields m) ++ drop n buf)) length-ack_fields

  -- The offsets of the fields behind the output.
  behind_output : 17 ≡ length (concat (m.ack ∷ m.output ∷ []))
  behind_output = omega (arith, ack_fits, output_fits, length-concat (m.ack ∷ m.output ∷ []))

  behind_cmt : 21 ≡ length (concat (m.ack ∷ m.output ∷ encode_le 4 m.cmt ∷ []))
  behind_cmt = omega (
    arith,
    ack_fits,
    output_fits,
    length-encode_le 4 m.cmt,
    length-concat (m.ack ∷ m.output ∷ encode_le 4 m.cmt ∷ []),
  )

  pub load-ack_cmt :
      (more : Bytes) → load 17 4 (concat (ack_fields m) ++ more) ≡ some (encode_le 4 m.cmt)
  load-ack_cmt more =
      load-concat (m.ack ∷ m.output ∷ []) (encode_le 4 m.cmt) (encode_le 4 m.sender ∷ []) 17 4 more
        behind_output (sym (length-encode_le 4 m.cmt))

  pub load-ack_sender :
      (more : Bytes) → load 21 4 (concat (ack_fields m) ++ more) ≡ some (encode_le 4 m.sender)
  load-ack_sender more =
      load-concat (m.ack ∷ m.output ∷ encode_le 4 m.cmt ∷ []) (encode_le 4 m.sender) [] 21 4 more
        behind_cmt (sym (length-encode_le 4 m.sender))

  pub load-ack_ack : (more : Bytes) → load 0 1 (concat (ack_fields m) ++ more) ≡ some m.ack
  load-ack_ack more =
      load-concat [] m.ack (m.output ∷ encode_le 4 m.cmt ∷ encode_le 4 m.sender ∷ []) 0 1 more refl
        (sym ack_fits)

  pub f_get-memcpy_ack_into_buffer :
      (buf : Bytes)
      → 25 ≤ length buf
      → (b : Bytes) × (memcpy_ack_into_buffer m buf ≡ some b)
        × (f_get_ack_val b ≡ some (not (decode_le m.ack == 0)))
        × (f_get_cmt b ≡ some (m.cmt % u32_mod))
        × (f_get_sender b ≡ some (m.sender % u32_mod))
        × (drop 25 b ≡ drop 25 buf)
  unfolding f_get_ack_val f_get_cmt f_get_sender
  f_get-memcpy_ack_into_buffer buf h = (
    concat (ack_fields m) ++ drop 25 buf,
    memcpy_ack_into_buffer_lem buf h,
    rw (load-ack_ack (drop 25 buf)),
    rw (load-ack_cmt (drop 25 buf), decode-encode_u32 m.cmt),
    rw (load-ack_sender (drop 25 buf), decode-encode_u32 m.sender),
    drop-append_exact 25 (concat (ack_fields m)) (drop 25 buf) (sym length-ack_fields),
  )
