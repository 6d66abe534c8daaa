-- ===== src/Net/Exchange.antt =====
-- network_bench/authenticators/: a request to the trusted service and its reply.
use replication_protos.Prelude.{
  ℕ, suc, ◌+◌, ◌-◌, ◌^◌, ◌%◌, ◌≤◌, ◌<◌, ◌≡◌, refl, ap, sym, ◌∙◌, false, some, List, [], ◌∷◌, ◌++◌,
  append-nil, append_assoc, arith, ◌==◌, Bytes, zeros, load_all, store_behind, store_front, length,
  length-append, length-drop, length-replicate, take, drop, drop_all, take-drop, u32_mod, le→leb,
}
use replication_protos.Net.Socket.{
  done, Received, Sent, taken, length_size_field, convert_int_to_byte_array, construct_message,
  and_then, or_fault, secure_recv, send_all, secure_send,
}
use replication_protos.Net.Auth.{send_req_to_trusted_service, recv_attestation}
use replication_protos.Net.Framing.{Delivers, secure_recv-Delivers, length-convert}

-- The answers of `send` take `n` bytes and leave the others.
pub data Takes : ℕ → List Sent → List Sent → Type 0 where
  none_left : {rs : List Sent} → Takes 0 rs rs
  some_taken :
      {n k : ℕ} {rs rest : List Sent}
      → k ≤ suc n
      → Takes (suc n - k) rs rest
      → Takes (suc n) (taken k ∷ rs) rest

send_all-Takes :
    {n : ℕ} {rs rest : List Sent} (len : ℕ) (wire d : Bytes)
    → Takes n rs rest
    → n ≡ length d
    → send_all len wire d rs ≡ done (some len, wire ++ d) rest
unfolding send_all
send_all-Takes {n} {rs} len wire [] none_left e =
    ap (λ w. done (some len, w) rs) (sym (append-nil wire))
send_all-Takes len wire [] (some_taken h t) e = absurd (omega (arith, e))
send_all-Takes len wire (b ∷ bs) none_left e = absurd (omega (arith, e))
send_all-Takes {rest = rest} len wire (b ∷ bs) (some_taken {k = k} h t) e =
    rw (le→leb k (length (b ∷ bs)) (omega (arith, h, e))) (
      send_all-Takes len (wire ++ take k (b ∷ bs)) (drop k (b ∷ bs)) t
        (omega (arith, e, length-drop k (b ∷ bs)))
      ∙ ap (λ w. done (some len, w) rest)
          (append_assoc wire (take k (b ∷ bs)) (drop k (b ∷ bs))
            ∙ ap (◌++◌ wire) (take-drop k (b ∷ bs))))

-- secure_send sends the whole block however `send` cuts it.
secure_send-Takes :
    {ks rest : List Sent} (block : Bytes) (len : ℕ)
    → len ≡ length block
    → Takes len ks rest
    → secure_send block len ks ≡ done (some len, block) rest
unfolding secure_send or_fault
secure_send-Takes block len e t = rw (load_all len block e) (send_all-Takes len [] block t e)

construct_message_lem :
    (block : Bytes)
    → length block < 2 ^ 31
    → construct_message (zeros (length block + length_size_field)) block (length block)
      ≡ some (convert_int_to_byte_array (length block) ++ block)
unfolding construct_message
construct_message_lem block h =
    rw
      (
        small,
        store_front (convert_int_to_byte_array n) (zeros (n + length_size_field))
            (omega (arith, fits, room)),
        load_all n block refl,
      )
      (store_behind length_size_field block (convert_int_to_byte_array n) after (sym fits)
          (omega (arith, left))
        ∙ ap (λ m. some (convert_int_to_byte_array n ++ m))
            (ap (◌++◌ block) (drop_all n after (omega (arith, left))) ∙ append-nil block))
  where
    n : ℕ
    n = length block

    after : Bytes
    after = drop (length (convert_int_to_byte_array n)) (zeros (n + length_size_field))

    small : n % u32_mod ≡ n
    small = omega (arith, h)

    fits : length (convert_int_to_byte_array n) ≡ length_size_field
    fits = length-convert n

    room : length (zeros (n + length_size_field)) ≡ n + length_size_field
    room = length-replicate {0} (n + length_size_field) 0

    left : length after ≡ n
    left = omega (
      arith,
      length-drop (length (convert_int_to_byte_array n)) (zeros (n + length_size_field)),
      fits,
      room,
    )

-- All of a request goes over the wire, its size in front.
pub send_req_lem :
    {ks rest : List Sent} (block : Bytes)
    → length block < 2 ^ 31
    → Takes (length block + length_size_field) ks rest
    → send_req_to_trusted_service block (length block) ks
      ≡ done (convert_int_to_byte_array (length block) ++ block) rest
unfolding send_req_to_trusted_service and_then or_fault
send_req_lem {ks} {rest} block h t = rw (construct_message_lem block h, sent)
  where
    message : Bytes
    message = convert_int_to_byte_array (length block) ++ block

    size : length block + length_size_field ≡ length message
    size = omega (
      arith,
      length-append (convert_int_to_byte_array (length block)) block,
      length-convert (length block),
    )

    sent :
        secure_send message (length block + length_size_field) ks
        ≡ done (some (length block + length_size_field), message) rest
    sent = secure_send-Takes message (length block + length_size_field) size t

-- send_req_to_trusted_service of network_bench/authenticators sends the size of a request and the
-- request, and secure_recv at the other end returns exactly the request, however send and recv cut
-- the bytes: send takes all of them over any number of calls, and recv delivers them in pieces,
-- between which there may be failures and fewer than 10000 answers of 0 bytes in a row. The request
-- is shorter than 2^31 bytes.
pub send_req-secure_recv :
    (block dlen : Bytes) {ks rest : List Sent} {rs mid rest' : List Received}
    → length block < 2 ^ 31
    → length dlen ≡ length_size_field
    → Takes (length block + length_size_field) ks rest
    → Delivers 0 (convert_int_to_byte_array (length block)) rs mid
    → Delivers 0 block mid rest'
    → (send_req_to_trusted_service block (length block) ks
        ≡ done (convert_int_to_byte_array (length block) ++ block) rest)
      × (secure_recv dlen rs ≡ done (length block, some block) rest')
send_req-secure_recv block dlen {ks} {rest} {rs} {mid} {rest'} h e t head body = (
  send_req_lem block h t,
  secure_recv-Delivers block dlen rs mid rest' (omega (arith, h)) e head body,
)

pub recv_attestation-Delivers :
    (p dlen : Bytes) {rs mid rest : List Received}
    → 0 < length p
    → length p < 2 ^ 31
    → length dlen ≡ length_size_field
    → Delivers 0 (convert_int_to_byte_array (length p)) rs mid
    → Delivers 0 p mid rest
    → recv_attestation dlen rs ≡ done (length p, p) rest
unfolding recv_attestation and_then
recv_attestation-Delivers p dlen {rs} {mid} {rest} some_there h e head body =
    rw (secure_recv-Delivers p dlen rs mid rest (omega (arith, h)) e head body, ne)
  where
    ne : (length p == 0) ≡ false
    ne = ground (arith, some_there)
