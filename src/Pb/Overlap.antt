-- ===== src/Pb/Overlap.antt =====
-- bft-pb/msg_format.h: what `memcpy_ack_into_buffer` leaves in a buffer.
use replication_protos.Prelude.{
  ℕ, ◌+◌, ◌≤◌, ◌≡◌, ap, sym, ◌∙◌, some, ◌++◌, append_assoc, arith, ◌>>=◌, not, ◌==◌, Bytes, load,
  load_prefix, store, store_front, store_behind, load-append_le, load-skip, encode_le, decode_le,
  length-encode_le, length, length-append, length-drop, length-take, take, drop, take-drop,
  drop-drop, drop-append_exact,
}
use replication_protos.Tlog.Format.{f_get_ack_val, f_get_cmt, f_get_sender, ack_size, out_size}
use replication_protos.Pb.Format.{AckMsg, memcpy_ack_into_buffer}

-- An output in four words: the second and the third are overwritten.
store_words :
    (ack a b c d x y buf : Bytes)
    → length ack ≡ 1
    → length a ≡ 4
    → length b ≡ 4
    → length c ≡ 4
    → length d ≡ 4
    → length x ≡ 4
    → length y ≡ 4
    → 17 ≤ length buf
    → (store 0 ack buf >>= λ b1.
        store 1 (a ++ (b ++ (c ++ d))) b1 >>= λ b2. store 5 x b2 >>= λ b3. store 9 y b3)
      ≡ some (((((ack ++ a) ++ x) ++ y) ++ d) ++ drop 17 buf)
store_words ack a b c d x y buf e ea eb ec ed ex ey h =
    rw
      (
        store_front ack buf (omega (arith, e, h)),
        store_behind 1 (a ++ (b ++ (c ++ d))) ack (drop (length ack) buf) (sym e)
            (omega (arith, words, e, h, length-drop {0} (length ack) buf)),
        rest_eq,
        first_two,
        store_behind 5 x (ack ++ a) (b ++ ((c ++ d) ++ drop 17 buf))
            (omega (arith, e, ea, length-append {0} ack a))
            (omega (arith, eb, ex, length-append {0} b ((c ++ d) ++ drop 17 buf))),
        drop-append_exact (length x) b ((c ++ d) ++ drop 17 buf) (ex ∙ sym eb),
        first_three,
        store_behind 9 y ((ack ++ a) ++ x) (c ++ (d ++ drop 17 buf))
            (omega (arith, e, ea, ex, length-append {0} ack a, length-append {0} (ack ++ a) x))
            (omega (arith, ec, ey, length-append {0} c (d ++ drop 17 buf))),
        drop-append_exact (length y) c (d ++ drop 17 buf) (ey ∙ sym ec),
      )
      (ap some (
        sym (append_assoc ((ack ++ a) ++ x) y (d ++ drop 17 buf))
        ∙ sym (append_assoc (((ack ++ a) ++ x) ++ y) d (drop 17 buf))))
  where
    words : length (a ++ (b ++ (c ++ d))) ≡ 16
    words = omega (
      arith,
      ea,
      eb,
      ec,
      ed,
      length-append {0} a (b ++ (c ++ d)),
      length-append {0} b (c ++ d),
      length-append {0} c d,
    )

    seventeen : length ack + length (a ++ (b ++ (c ++ d))) ≡ 17
    seventeen = omega (arith, e, words)

    rest_eq : drop (length (a ++ (b ++ (c ++ d)))) (drop (length ack) buf) ≡ drop 17 buf
    rest_eq =
        drop-drop (length ack) (length (a ++ (b ++ (c ++ d)))) buf ∙ ap (λ n. drop n buf) seventeen

    first_two :
        ack ++ ((a ++ (b ++ (c ++ d))) ++ drop 17 buf)
        ≡ (ack ++ a) ++ (b ++ ((c ++ d) ++ drop 17 buf))
    first_two =
        ap (◌++◌ ack) (
          append_assoc a (b ++ (c ++ d)) (drop 17 buf)
          ∙ ap (◌++◌ a) (append_assoc b (c ++ d) (drop 17 buf)))
        ∙ sym (append_assoc ack a (b ++ ((c ++ d) ++ drop 17 buf)))

    first_three :
        (ack ++ a) ++ (x ++ ((c ++ d) ++ drop 17 buf))
        ≡ ((ack ++ a) ++ x) ++ (c ++ (d ++ drop 17 buf))
    first_three =
        ap (λ z. (ack ++ a) ++ (x ++ z)) (append_assoc c d (drop 17 buf))
        ∙ sym (append_assoc (ack ++ a) x (c ++ (d ++ drop 17 buf)))

-- The 17 bytes that are written.
abbrev pub written : AckMsg → Bytes
written m =
    (((m.ack ++ take 4 m.output) ++ encode_le 4 m.cmt) ++ encode_le 4 m.sender) ++ drop 12 m.output

module _ (m : AckMsg) (ack_fits : length m.ack ≡ ack_size)
    (output_fits : length m.output ≡ out_size) where
  output_words :
      m.output
      ≡ take 4 m.output
        ++ (take 4 (drop 4 m.output) ++ (take 4 (drop 8 m.output) ++ drop 12 m.output))
  output_words =
      sym (take-drop 4 m.output)
      ∙ ap (◌++◌ (take 4 m.output)) (
          sym (take-drop 4 (drop 4 m.output))
          ∙ ap (◌++◌ (take 4 (drop 4 m.output))) (
              drop-drop 4 4 m.output
              ∙ sym (take-drop 4 (drop 8 m.output))
              ∙ ap (◌++◌ (take 4 (drop 8 m.output))) (drop-drop 8 4 m.output)))

  pub memcpy_ack_into_buffer_lem :
      (buf : Bytes)
      → 17 ≤ length buf
      → memcpy_ack_into_buffer m buf ≡ some (written m ++ drop 17 buf)
  unfolding memcpy_ack_into_buffer
  memcpy_ack_into_buffer_lem buf h =
      ap
        (λ o. store 0 m.ack buf >>= λ b1. store 1 o b1 >>= λ b2.
          store 5 (encode_le 4 m.cmt) b2 >>= λ b3. store 9 (encode_le 4 m.sender) b3)
        output_words
      ∙ store_words m.ack (take 4 m.output) (take 4 (drop 4 m.output)) (take 4 (drop 8 m.output))
          (drop 12 m.output) (encode_le 4 m.cmt) (encode_le 4 m.sender) buf ack_fits
          (omega (arith, output_fits, length-take {0} 4 m.output))
          (omega
            (arith, output_fits, length-take {0} 4 (drop 4 m.output), length-drop {0} 4 m.output))
          (omega
            (arith, output_fits, length-take {0} 4 (drop 8 m.output), length-drop {0} 8 m.output))
          (omega (arith, output_fits, length-drop {0} 12 m.output)) (length-encode_le 4 m.cmt)
          (length-encode_le 4 m.sender) h

  pub length-written : length (written m) ≡ 17
  length-written = omega (
    arith,
    ack_fits,
    output_fits,
    length-take {0} 4 m.output,
    length-drop {0} 12 m.output,
    length-encode_le 4 m.cmt,
    length-encode_le 4 m.sender,
    length-append {0} m.ack (take 4 m.output),
    length-append {0} (m.ack ++ take 4 m.output) (encode_le 4 m.cmt),
    length-append {0} ((m.ack ++ take 4 m.output) ++ encode_le 4 m.cmt) (encode_le 4 m.sender),
    length-append {0} (((m.ack ++ take 4 m.output) ++ encode_le 4 m.cmt) ++ encode_le 4 m.sender)
        (drop 12 m.output),
  )

  behind :
      (off n : ℕ) (buf : Bytes)
      → 17 ≤ length buf
      → load (17 + off) n (written m ++ drop 17 buf) ≡ load (17 + off) n buf
  behind off n buf h =
      load-skip 17 off n (written m) (drop 17 buf) (sym length-written)
      ∙ sym (
          load-skip 17 off n (take 17 buf) (drop 17 buf) (omega (arith, h, length-take {0} 17 buf)))
      ∙ ap (load (17 + off) n) (take-drop 17 buf)

  -- In a buffer of at least 17 bytes memcpy_ack_into_buffer of bft-pb/msg_format.h writes an
  -- acknowledgement from which f_get_ack_val reads the flag, while f_get_cmt and f_get_sender read
  -- what they read in the buffer before, not the acknowledgement's index and sender. The flag has 1
  -- byte and the output 16.
  pub f_get-memcpy_ack_into_buffer :
      (buf : Bytes)
      → 17 ≤ length buf
      → (b : Bytes) × (memcpy_ack_into_buffer m buf ≡ some b)
        × (f_get_ack_val b ≡ some (not (decode_le m.ack == 0)))
        × (f_get_cmt b ≡ f_get_cmt buf)
        × (f_get_sender b ≡ f_get_sender buf)
  unfolding f_get_ack_val f_get_cmt f_get_sender
  f_get-memcpy_ack_into_buffer buf h = (
    written m ++ drop 17 buf,
    memcpy_ack_into_buffer_lem buf h,
    rw (load_flag),
    rw (behind 0 4 buf h),
    rw (behind 4 4 buf h),
  )
    where
      load_flag : load 0 1 (written m ++ drop 17 buf) ≡ some m.ack
      load_flag =
          load-append_le 0 1 (written m) (drop 17 buf) (omega (arith, length-written))
          ∙ load-append_le 0 1
              (((m.ack ++ take 4 m.output) ++ encode_le 4 m.cmt) ++ encode_le 4 m.sender)
              (drop 12 m.output)
              (omega (
                arith,
                length-append {0} ((m.ack ++ take 4 m.output) ++ encode_le 4 m.cmt)
                    (encode_le 4 m.sender),
                length-encode_le 4 m.sender,
              ))
          ∙ load-append_le 0 1 ((m.ack ++ take 4 m.output) ++ encode_le 4 m.cmt)
              (encode_le 4 m.sender)
              (omega (
                arith,
                length-append {0} (m.ack ++ take 4 m.output) (encode_le 4 m.cmt),
                length-encode_le 4 m.cmt,
              ))
          ∙ load-append_le 0 1 (m.ack ++ take 4 m.output) (encode_le 4 m.cmt)
              (omega (arith, ack_fits, length-append {0} m.ack (take 4 m.output)))
          ∙ load_prefix 1 m.ack (take 4 m.output) (sym ack_fits)
