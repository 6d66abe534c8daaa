-- ===== src/Net/Framing.antt =====
-- network_bench/authenticators/shared.cpp: what arrives of a message, however the socket cuts it.
use replication_protos.Prelude.{
  ℕ, suc, ◌+◌, ◌≤◌, ◌<◌, ◌≡◌, refl, ap, sym, ◌∙◌, true, false, some, List, [], ◌∷◌, ◌++◌,
  append-nil, append_assoc, arith, ==_refl, ltb, leb, Bytes, zeros, load, store_behind, length,
  length-append, length-drop, drop-drop, drop_all, length-replicate, drop, u32_mod,
}
use replication_protos.Net.Socket.{
  done, Received, received, recv_failed, max_retries, length_size_field, convert_int_to_byte_array,
  from_bytes, convert_byte_array_to_int, destruct_message, read_n, and_then, or_fault, secure_recv,
}

-- The answers of `recv` deliver `d` and leave the others: in pieces, with failures, and with fewer than
-- `max_retries` answers of 0 bytes in a row. `t` of these came before.
pub data Delivers : ℕ → Bytes → List Received → List Received → Type 0 where
  all : {t : ℕ} {rs : List Received} → Delivers t [] rs rs
  piece :
      {t b : ℕ} {bs d : Bytes} {rs rest : List Received}
      → Delivers 0 d rs rest
      → Delivers t (b ∷ (bs ++ d)) (received (b ∷ bs) ∷ rs) rest
  idle :
      {t b : ℕ} {d : Bytes} {rs rest : List Received}
      → t < max_retries
      → Delivers (suc t) (b ∷ d) rs rest
      → Delivers t (b ∷ d) (received [] ∷ rs) rest
  again :
      {t b : ℕ} {d : Bytes} {rs rest : List Received}
      → Delivers t (b ∷ d) rs rest
      → Delivers t (b ∷ d) (recv_failed ∷ rs) rest

read_n_end :
    (n t : ℕ) (buffer : Bytes) (rs : List Received) → read_n n n t buffer rs ≡ done (n, buffer) rs
unfolding read_n
read_n_end n t buffer [] = ground arith
read_n_end n t buffer (received [] ∷ rs) = ground arith
read_n_end n t buffer (received (b ∷ bs) ∷ rs) = ground arith
read_n_end n t buffer (recv_failed ∷ rs) = ground arith

below : (k n : ℕ) → k < n → ltb k n ≡ true
below k n h = ground (arith, h)

few : (t : ℕ) → t < max_retries → leb max_retries t ≡ false
few t h = ground (arith, h)

-- The bytes that are delivered are behind what was there.
pub read_n-Delivers :
    {t : ℕ} {d : Bytes} {rs rest : List Received} (n : ℕ) (front space : Bytes)
    → Delivers t d rs rest
    → n ≡ length front + length d
    → length d ≤ length space
    → read_n n (length front) t (front ++ space) rs
      ≡ done (n, front ++ (d ++ drop (length d) space)) rest
unfolding read_n
read_n-Delivers {t} {d} {rs} n front space all e h =
    ap (λ k. read_n n k t (front ++ space) rs) (sym whole) ∙ read_n_end n t (front ++ space) rs
  where
    whole : n ≡ length front
    whole = omega (arith, e)
read_n-Delivers n front space (piece {t = t} {b = b} {bs = bs} {d = d} {rs = rs} {rest = rest} dels)
      e h =
    rw
      (
        below (length front) n (omega (arith, e)),
        store_behind (length front) (b ∷ bs) front space refl
            (omega (arith, h, length-append bs d)),
      )
      (ap (λ k. read_n n k 0 (front ++ ((b ∷ bs) ++ after)) rs) (sym (length-append front (b ∷ bs)))
        ∙ ap (λ m. read_n n (length (front ++ (b ∷ bs))) 0 m rs)
            (sym (append_assoc front (b ∷ bs) after))
        ∙ read_n-Delivers n (front ++ (b ∷ bs)) after dels
            (omega (arith, e, length-append bs d, length-append front (b ∷ bs)))
            (omega (arith, h, length-append bs d, length-drop (length (b ∷ bs)) space))
        ∙ ap (λ m. done (n, m) rest) joined)
  where
    after : Bytes
    after = drop (length (b ∷ bs)) space

    added : length (b ∷ bs) + length d ≡ length (b ∷ (bs ++ d))
    added = omega (arith, length-append bs d)

    joined :
        (front ++ (b ∷ bs)) ++ (d ++ drop (length d) after)
        ≡ front ++ ((b ∷ (bs ++ d)) ++ drop (length (b ∷ (bs ++ d))) space)
    joined =
        append_assoc front (b ∷ bs) (d ++ drop (length d) after)
        ∙ ap (λ m. front ++ (b ∷ m))
            (sym (append_assoc bs d (drop (length d) after))
              ∙ ap (◌++◌ (bs ++ d))
                  (drop-drop (length (b ∷ bs)) (length d) space ∙ ap (λ k. drop k space) added))
read_n-Delivers n front space (idle {t = t} few_idle dels) e h =
    rw (below (length front) n (omega (arith, e)), few t few_idle)
      (read_n-Delivers n front space dels e h)
read_n-Delivers n front space (again dels) e h =
    rw (below (length front) n (omega (arith, e))) (read_n-Delivers n front space dels e h)

-- A block that is filled from its start.
read_n-block :
    {d : Bytes} {rs rest : List Received} (block : Bytes)
    → Delivers 0 d rs rest
    → length d ≡ length block
    → read_n (length d) 0 0 block rs ≡ done (length d, d) rest
read_n-block {d} {rs} {rest} block dels e =
    read_n-Delivers (length d) [] block dels (omega arith) (omega (arith, e))
    ∙ ap (λ m. done (length d, m) rest)
        (ap (◌++◌ d) (drop_all (length d) block (omega (arith, e))) ∙ append-nil d)

destruct-convert :
    (n : ℕ)
    → n < u32_mod
    → destruct_message (convert_int_to_byte_array n) length_size_field ≡ some (some n)
unfolding destruct_message convert_byte_array_to_int convert_int_to_byte_array load from_bytes
destruct-convert n h = ap (λ k. some (some k)) (omega (arith, h))

pub length-convert : (n : ℕ) → length (convert_int_to_byte_array n) ≡ length_size_field
unfolding convert_int_to_byte_array
length-convert n = refl

read_n-header :
    (n : ℕ) (dlen : Bytes) (rs mid : List Received)
    → length dlen ≡ length_size_field
    → Delivers 0 (convert_int_to_byte_array n) rs mid
    → read_n length_size_field 0 0 dlen rs
      ≡ done (length_size_field, convert_int_to_byte_array n) mid
unfolding convert_int_to_byte_array
read_n-header n dlen rs mid e head = read_n-block dlen head (sym e)

-- What arrives of a message is its payload.
pub secure_recv-Delivers :
    (p dlen : Bytes) (rs mid rest : List Received)
    → length p < u32_mod
    → length dlen ≡ length_size_field
    → Delivers 0 (convert_int_to_byte_array (length p)) rs mid
    → Delivers 0 p mid rest
    → secure_recv dlen rs ≡ done (length p, some p) rest
unfolding secure_recv and_then or_fault
secure_recv-Delivers p dlen rs mid rest h e head body = rw (
  read_n-header (length p) dlen rs mid e head,
  destruct-convert (length p) h,
  read_n-block (zeros (length p)) body (sym (length-replicate {0} (length p) 0)),
  ==_refl (length p),
)
