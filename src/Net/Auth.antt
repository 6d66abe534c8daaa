-- ===== src/Net/Auth.antt =====
-- network_bench/authenticators/authenticator.h and apis.h: the authenticators that a node can have.
-- Their connections and files are open; what is sent on the one socket, received on the other and
-- written to the file are arguments like those of the socket.
use replication_protos.Prelude.{
  ℕ, zero, suc, ◌+◌, ◌-◌, ◌%◌, ◌^◌, ltb, u32_mod, take, ◌>>=◌, Option, none, some, List, [], ◌∷◌,
  ◌++◌, leb, if◌then◌else◌, ◌==◌, Bytes, zeros, load, store,
}
use replication_protos.Net.Socket.{
  Run, done, waiting, exited, and_then, or_fault, Received, Sent, length_size_field,
  construct_message, secure_send, secure_recv,
}

-- What goes over the wire. The size of a request is an `int` that is not negative.
unfoldable pub send_req_to_trusted_service : Bytes → ℕ → List Sent → Run Sent Bytes
send_req_to_trusted_service block size results =
    or_fault (construct_message (zeros (size + length_size_field)) block size) (λ buff.
      and_then (secure_send buff (size + length_size_field) results)
        (λ (sent, wire) rest. elim sent [ none ↦ exited 1 | some n ↦ done wire rest ]))

unfoldable pub recv_attestation : Bytes → List Received → Run Received (ℕ × Bytes)
recv_attestation dlen results = and_then (secure_recv dlen results) (λ (bytecount, buffer) rest.
    elim buffer [
      | none ↦ exited 2
      | some b ↦ if bytecount == 0 then exited 2 else done (bytecount, b) rest
    ])

-- `write` answers -1, or how many bytes it wrote.
pub data Written : Type 0 where
  written : ℕ → Written
  write_failed : Written

-- `left` is `size - completed_bytes`; the bytes are written from the start of the data every time.
unfoldable pub log_from : ℕ → Bytes → Bytes → List Written → Run Written Bytes
log_from zero block file rs = done file rs
log_from (suc left) block file [] = waiting
log_from (suc left) block file (write_failed ∷ rs) =
    or_fault (load 0 (suc left) block) (λ asked. log_from (suc (suc left)) block file rs)
log_from (suc left) block file (written k ∷ rs) = or_fault (load 0 (suc left) block) (λ asked.
    if leb k (suc left)
    then log_from (suc left - k) block (file ++ take k asked) rs
    else done (file ++ asked) rs)

-- Nothing is written where `size` is negative as an `int`.
unfoldable pub log_attestation : ℕ → Bytes → Bytes → List Written → Run Written Bytes
log_attestation size block file rs =
    if ltb size (2 ^ 31) then log_from size block file rs else done file rs

-- `auth_tnic`
unfoldable pub tnic_attestation : ℕ → Bytes → Option (ℕ × Bytes)
tnic_attestation size block = do
  bytes ← load 0 size block
  attested_message ← store 0 bytes (zeros size)
  some (size, attested_message)

-- `enum authenticators` of main.cc.
pub data Mode : Type 0 where
  sgx : Mode
  sgx_p : Mode
  sgx_r : Mode
  tnic : Mode

-- The answers to come, what went to the service and to the file, and the static `cnt`.
pub record Service : Type 0 where
  pub to_service : List Sent
  pub from_service : List Received
  pub to_file : List Written
  pub wire : Bytes
  pub file : Bytes
  pub cnt : ℕ

-- `send_req_to_trusted_service` and `recv_attestation`
unfoldable pub ask_service : Bytes → ℕ → Bytes → Service → Run (Unit {0}) ((ℕ × Bytes) × Service)
ask_service dlen size block s =
    and_then (send_req_to_trusted_service block size s.to_service) (λ sent to_service.
      and_then (recv_attestation dlen s.from_service) (λ reply from_service.
        done
          (
            reply,
            record s {
              to_service = to_service;
              from_service = from_service;
              wire = s.wire ++ sent;
            },
          )
          []))

unfoldable pub log_reply : (ℕ × Bytes) × Service → Run (Unit {0}) ((ℕ × Bytes) × Service)
log_reply ((size, msg), s) =
    and_then (log_attestation size msg s.file s.to_file)
      (λ file to_file. done ((size, msg), record s { to_file = to_file; file = file }) [])

-- `get_attestation` of the four classes.
unfoldable pub get_attestation :
    Mode → Bytes → ℕ → Bytes → Service → Run (Unit {0}) ((ℕ × Bytes) × Service)
get_attestation sgx dlen size block s = ask_service dlen size block s
get_attestation sgx_p dlen size block s =
    and_then (ask_service dlen size block s) (λ r rest. log_reply r)
get_attestation sgx_r dlen size block s = and_then (ask_service dlen size block s) (λ r rest.
    and_then (log_reply r)
      (λ (reply, s') rest'. done (reply, record s' { cnt = (s'.cnt + 1) % u32_mod }) []))
get_attestation tnic dlen size block s =
    or_fault (tnic_attestation size block) (λ reply. done (reply, s) [])
