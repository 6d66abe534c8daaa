-- ===== src/Net/Socket.antt =====
-- network_bench/authenticators/shared.h and shared.cpp: messages with their size in front, over a socket.
-- What `recv` and `send` answer is an argument: a list with an answer for each call. A run that needs one
-- more answer than there are is still waiting.
use replication_protos.Prelude.{
  ℕ, suc, ◌+◌, ◌*◌, ◌/◌, ◌%◌, ◌^◌, Option, none, some, List, [], ◌∷◌, ◌++◌, ◌==◌, ltb, leb,
  if◌then◌else◌, Bytes, zeros, load, store, length, take, drop, u32_mod, ◌>>=◌,
}

-- How a run over the answers `R` ends: with a value and the answers that are left, or waiting for an
-- answer, or by `exit`, or by an access outside of a block.
pub data Run (R A : Type 0) : Type 0 where
  done : A → List R → Run R A
  waiting : Run R A
  exited : ℕ → Run R A
  fault : Run R A

-- `recv` answers -1, or with as many bytes as it says.
pub data Received : Type 0 where
  received : Bytes → Received
  recv_failed : Received

-- `send` answers -1, or how many bytes it took.
pub data Sent : Type 0 where
  taken : ℕ → Sent
  send_failed : Sent

abbrev pub length_size_field : ℕ
length_size_field = 4

abbrev pub max_retries : ℕ
max_retries = 10000

-- The four bytes at `dst`, the most significant first.
unfoldable pub convert_int_to_byte_array : ℕ → Bytes
convert_int_to_byte_array sz =
    (sz / 2 ^ 24) % 256 ∷ (sz / 2 ^ 16) % 256 ∷ (sz / 2 ^ 8) % 256 ∷ sz % 256 ∷ []

unfoldable pub from_bytes : ℕ → Bytes → ℕ
from_bytes acc [] = acc
from_bytes acc (b ∷ bs) = from_bytes (acc * 256 + b) bs

unfoldable pub convert_byte_array_to_int : Bytes → Option ℕ
convert_byte_array_to_int b = do word ← load 0 4 b; some (from_bytes 0 word % u32_mod)

unfoldable pub construct_message : Bytes → Bytes → ℕ → Option Bytes
construct_message dst payload payload_size = do
  sized ← store 0 (convert_int_to_byte_array (payload_size % u32_mod)) dst
  bytes ← load 0 payload_size payload
  store length_size_field bytes sized

-- `std::nullopt` is the inner `none`.
unfoldable pub destruct_message : Bytes → ℕ → Option (Option ℕ)
destruct_message msg bytes =
    if ltb bytes 4
    then some none
    else (do actual_msg_size ← convert_byte_array_to_int msg; some (some actual_msg_size))

-- `bytes_read` and `buffer`; a negative answer is neither counted nor a reason to stop.
unfoldable pub read_n : ℕ → ℕ → ℕ → Bytes → List Received → Run Received (ℕ × Bytes)
read_n n bytes_read retries buffer [] =
    if ltb bytes_read n then waiting else done (bytes_read, buffer) []
read_n n bytes_read retries buffer (received [] ∷ rs) =
    if ltb bytes_read n
    then (if leb max_retries retries
        then done (bytes_read, buffer) rs
        else read_n n bytes_read (suc retries) buffer rs)
    else done (bytes_read, buffer) (received [] ∷ rs)
read_n n bytes_read retries buffer (received (b ∷ bs) ∷ rs) =
    if ltb bytes_read n
    then elim (store bytes_read (b ∷ bs) buffer) [
      | none ↦ fault
      | some buffer' ↦ read_n n (bytes_read + length (b ∷ bs)) 0 buffer' rs
    ]
    else done (bytes_read, buffer) (received (b ∷ bs) ∷ rs)
read_n n bytes_read retries buffer (recv_failed ∷ rs) =
    if ltb bytes_read n
    then read_n n bytes_read retries buffer rs
    else done (bytes_read, buffer) (recv_failed ∷ rs)

-- The next step of a run.
unfoldable pub and_then : {R S A B : Type 0} → Run R A → (A → List R → Run S B) → Run S B
and_then (done a rs) f = f a rs
and_then waiting f = waiting
and_then (exited n) f = exited n
and_then fault f = fault

-- What cannot be read is a fault.
unfoldable pub or_fault : {R A B : Type 0} → Option A → (A → Run R B) → Run R B
or_fault none f = fault
or_fault (some a) f = f a

-- The size and the block, or 0 and no block. `dlen` is what the array holds before.
unfoldable pub secure_recv : Bytes → List Received → Run Received (ℕ × Option Bytes)
secure_recv dlen results =
    and_then (read_n length_size_field 0 0 dlen results) (λ (byte_read, header) rest.
      if byte_read == length_size_field
      then or_fault (destruct_message header length_size_field) (λ size. elim size [
        | none ↦ done (0, none) rest
        | some actual_msg_size ↦
            and_then (read_n actual_msg_size 0 0 (zeros actual_msg_size) rest)
              (λ (bytes, buf) rest'.
                if bytes == actual_msg_size
                then done (actual_msg_size, some buf) rest'
                else done (0, none) rest')
      ])
      else done (0, none) rest)

-- `tmp` points to the bytes that remain; `wire` is what the socket took. An answer beyond them moves
-- `tmp` out of the block.
unfoldable pub send_all : ℕ → Bytes → Bytes → List Sent → Run Sent (Option ℕ × Bytes)
send_all len wire [] rs = done (some len, wire) rs
send_all len wire (b ∷ bs) [] = waiting
send_all len wire (b ∷ bs) (send_failed ∷ rs) = done (none, wire) rs
send_all len wire (b ∷ bs) (taken k ∷ rs) =
    if leb k (length (b ∷ bs))
    then send_all len (wire ++ take k (b ∷ bs)) (drop k (b ∷ bs)) rs
    else fault

unfoldable pub secure_send : Bytes → ℕ → List Sent → Run Sent (Option ℕ × Bytes)
secure_send block len rs = or_fault (load 0 len block) (λ bytes. send_all len [] bytes rs)
