-- ===== src/Net/Tests.antt =====
-- Runs of network_bench/authenticators/ at concrete inputs.
use replication_protos.Prelude.{
  ◌+◌, ◌≡◌, refl, some, List, [], ◌∷◌, ◌++◌, arith, Bytes, zeros, length,
}
use replication_protos.Net.Socket.{
  done, Received, received, recv_failed, Sent, taken, length_size_field, convert_int_to_byte_array,
  secure_recv,
}
use replication_protos.Net.Auth.{
  Service, sgx_r, written, send_req_to_trusted_service, get_attestation,
}
use replication_protos.Net.Framing.{Delivers, all, piece, idle, again}
use replication_protos.Net.Exchange.{Takes, none_left, some_taken, send_req-secure_recv}
use replication_protos.Net.Served.{IsServed, served_by, reply_of, get_attestation-IsServed}

abbrev two_bytes : Bytes
two_bytes = 7 ∷ 8 ∷ []

-- The message in two parts.
abbrev two_parts : List Sent
two_parts = taken 1 ∷ taken 5 ∷ []

two_parts-Takes : Takes (length two_bytes + length_size_field) two_parts []
two_parts-Takes = some_taken (omega arith) (some_taken (omega arith) none_left)

-- The size in two parts with a failure between them, then nothing, then the payload.
abbrev arrivals : List Received
arrivals =
    received (0 ∷ 0 ∷ [])
    ∷ recv_failed
    ∷ received (0 ∷ 2 ∷ [])
    ∷ received []
    ∷ received (7 ∷ 8 ∷ [])
    ∷ []

abbrev after_header : List Received
after_header = received [] ∷ received (7 ∷ 8 ∷ []) ∷ []

header_arrives : Delivers 0 (convert_int_to_byte_array (length two_bytes)) arrivals after_header
unfolding convert_int_to_byte_array
header_arrives = piece {bs = 0 ∷ []} (again (piece {bs = 2 ∷ []} all))

payload_arrives : Delivers 0 two_bytes after_header []
payload_arrives = idle (omega arith) (piece {bs = 8 ∷ []} all)

send_req-secure_recv_example :
    (send_req_to_trusted_service two_bytes (length two_bytes) two_parts
      ≡ done (convert_int_to_byte_array (length two_bytes) ++ two_bytes) [])
    × (secure_recv (zeros 4) arrivals ≡ done (length two_bytes, some two_bytes) [])
send_req-secure_recv_example =
    send_req-secure_recv two_bytes (zeros 4) (omega arith) refl two_parts-Takes header_arrives
      payload_arrives

abbrev service : Service
service = record {
  to_service = two_parts;
  from_service = arrivals;
  to_file = written 2 ∷ [];
  wire = [];
  file = [];
  cnt = 0;
}

service-IsServed : IsServed (length two_bytes) two_bytes service [] []
service-IsServed = record {
  mid = after_header;
  takes = two_parts-Takes;
  head = header_arrives;
  body = payload_arrives;
}

get_attestation-IsServed_example :
    get_attestation sgx_r (zeros 4) (length two_bytes) two_bytes service
    ≡ done
        (
          (length (reply_of sgx_r two_bytes two_bytes), reply_of sgx_r two_bytes two_bytes),
          served_by sgx_r two_bytes two_bytes [] [] [] service,
        )
        []
get_attestation-IsServed_example =
    get_attestation-IsServed sgx_r two_bytes two_bytes (zeros 4) service (omega arith) (omega arith)
      (omega arith) refl service-IsServed refl
