-- ===== src/Net/Served.antt =====
-- network_bench/authenticators/: what the authenticators return when the service answers.
use replication_protos.Prelude.{
  ℕ, ◌+◌, ◌^◌, ◌%◌, ◌<◌, ◌≡◌, refl, ap, ◌∙◌, some, List, [], ◌∷◌, ◌++◌, append-nil, arith, Bytes,
  zeros, load_all, store_front, length, length-replicate, drop_all, u32_mod,
}
use replication_protos.Net.Socket.{
  done, Received, Sent, length_size_field, convert_int_to_byte_array, and_then, or_fault,
}
use replication_protos.Net.Auth.{
  Service, Mode, sgx, sgx_p, sgx_r, tnic, tnic_attestation, Written, written, ask_service,
  log_reply, get_attestation,
}
use replication_protos.Net.Journal.{log_attestation_whole}
use replication_protos.Net.Framing.{Delivers}
use replication_protos.Net.Exchange.{Takes, send_req_lem, recv_attestation-Delivers}

-- What the answers of the two sockets and of the file are when they work.
pub record IsServed (size : ℕ) (p : Bytes) (s : Service) (ks : List Sent) (rs : List Received)
    : Type 0 where
  pub mid : List Received
  pub takes : Takes (size + length_size_field) s.to_service ks
  pub head : Delivers 0 (convert_int_to_byte_array (length p)) s.from_service mid
  pub body : Delivers 0 p mid rs

ask_service-IsServed :
    (block p dlen : Bytes) (s : Service) {ks : List Sent} {rs : List Received}
    → length block < 2 ^ 31
    → 0 < length p
    → length p < 2 ^ 31
    → length dlen ≡ length_size_field
    → IsServed (length block) p s ks rs
    → ask_service dlen (length block) block s
      ≡ done
          (
            (length p, p),
            record s {
              to_service = ks;
              from_service = rs;
              wire = s.wire ++ (convert_int_to_byte_array (length block) ++ block);
            },
          )
          []
unfolding ask_service and_then
ask_service-IsServed block p dlen s h some_there k e served = rw (
  send_req_lem block h served.takes,
  recv_attestation-Delivers p dlen some_there k e served.head served.body,
)

-- The context after `get_attestation` of each class.
abbrev pub asked : Bytes → List Sent → List Received → Service → Service
asked block ks rs s = record s {
  to_service = ks;
  from_service = rs;
  wire = s.wire ++ (convert_int_to_byte_array (length block) ++ block);
}

abbrev pub served_by :
    Mode → Bytes → Bytes → List Sent → List Received → List Written → Service → Service
served_by sgx block p ks rs ws s = asked block ks rs s
served_by sgx_p block p ks rs ws s = record (asked block ks rs s) {
  file = s.file ++ p;
  to_file = ws;
}
served_by sgx_r block p ks rs ws s = record (asked block ks rs s) {
  file = s.file ++ p;
  to_file = ws;
  cnt = (s.cnt + 1) % u32_mod;
}
served_by tnic block p ks rs ws s = s

abbrev pub reply_of : Mode → Bytes → Bytes → Bytes
reply_of tnic block p = block
reply_of sgx block p = p
reply_of sgx_p block p = p
reply_of sgx_r block p = p

length-zeros : (n : ℕ) → length (zeros n) ≡ n
length-zeros n = length-replicate {0} n 0

log_reply_lem :
    (p : Bytes) (s : Service) (ws : List Written)
    → 0 < length p
    → length p < 2 ^ 31
    → s.to_file ≡ written (length p) ∷ ws
    → log_reply ((length p, p), s)
      ≡ done ((length p, p), record s { to_file = ws; file = s.file ++ p }) []
unfolding log_reply and_then
log_reply_lem p s ws h small e = rw (e, log_attestation_whole p s.file ws h small) refl

tnic_attestation_lem :
    (block : Bytes) → tnic_attestation (length block) block ≡ some (length block, block)
unfolding tnic_attestation
tnic_attestation_lem block =
    rw
      (
        load_all (length block) block refl,
        store_front block (zeros (length block)) (omega (arith, length-zeros (length block))),
      )
      (ap (λ b. some (length block, b))
        (ap (◌++◌ block) (
            drop_all (length block) (zeros (length block))
              (omega (arith, length-zeros (length block))))
          ∙ append-nil block))

-- get_attestation of the four authenticators of network_bench, when the request can be sent, a
-- reply of at least one byte arrives in any pieces, and the file takes it in one write: the mocked
-- one returns a copy of the data and uses neither; the others send the request and return the
-- reply, two of them append the reply to their file, and the one with rollback also advances its
-- counter. Request and reply are shorter than 2^31 bytes.
pub get_attestation-IsServed :
    (mode : Mode) (block p dlen : Bytes) (s : Service) {ks : List Sent} {rs : List Received}
    {ws : List Written}
    → length block < 2 ^ 31
    → 0 < length p
    → length p < 2 ^ 31
    → length dlen ≡ length_size_field
    → IsServed (length block) p s ks rs
    → s.to_file ≡ written (length p) ∷ ws
    → get_attestation mode dlen (length block) block s
      ≡ done
          (
            (length (reply_of mode block p), reply_of mode block p),
            served_by mode block p ks rs ws s,
          )
          []
unfolding get_attestation and_then or_fault
get_attestation-IsServed sgx block p dlen s h l k e served w =
    ask_service-IsServed block p dlen s h l k e served
get_attestation-IsServed sgx_p block p dlen s {ks} {rs} {ws} h l k e served w =
    rw (ask_service-IsServed block p dlen s h l k e served)
      (log_reply_lem p (asked block ks rs s) ws l k w)
get_attestation-IsServed sgx_r block p dlen s {ks} {rs} {ws} h l k e served w =
    rw
      (
        ask_service-IsServed block p dlen s h l k e served,
        log_reply_lem p (asked block ks rs s) ws l k w,
      )
      refl
get_attestation-IsServed tnic block p dlen s h l k e served w = rw (tnic_attestation_lem block) refl
