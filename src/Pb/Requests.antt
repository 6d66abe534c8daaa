-- ===== src/Pb/Requests.antt =====
-- bft-pb/main.cc: the requests that a leader builds.
use replication_protos.Prelude.{
  ℕ, zero, suc, ◌+◌, ◌%◌, ◌≡◌, refl, ap, sym, subst, ◌∙◌, List, [], ◌∷◌, arith, zeros, length,
  length-append, take-append_exact, encode_le, decode_le, length-encode_le, decode-encode_u32,
  u32_mod, All,
}
use replication_protos.A2m.Layout.{length-zeros}
use replication_protos.Tlog.Format.{PMsg, hash_size}
use replication_protos.Pb.Node.{Metadata, request_msg}
use replication_protos.Pb.InStep.{InStep, IsRequest}

-- The requests from index `i` on.
abbrev pub requests : ℕ → ℕ → Metadata → List PMsg
requests zero i meta = []
requests (suc n) i meta = request_msg i meta ∷ requests n (suc i) meta

-- The hashes that a leader puts into its requests have their size.
abbrev pub HasHashes : Metadata → Type 0
HasHashes meta = (length meta.mock_h1 ≡ hash_size) × (length meta.mock_h2 ≡ hash_size)

pub request_msg-IsRequest :
    (i : ℕ) (meta : Metadata) → HasHashes meta → IsRequest (request_msg i meta)
unfolding request_msg
request_msg-IsRequest i meta (h1, h2) = (
  record {
    cmd_fits = length-zeros 16;
    output_fits = omega (
      arith,
      length-append {0} (encode_le 4 i) (zeros 12),
      length-encode_le 4 i,
      length-zeros 12,
    );
    prev_h_fits = length-zeros 32;
    f1_prev_fits = h1;
    f2_prev_fits = h2;
  },
  omega arith,
)

pub requests-IsRequest :
    (n i : ℕ) (meta : Metadata) → HasHashes meta → All IsRequest (requests n i meta)
requests-IsRequest zero i meta h = tt
requests-IsRequest (suc n) i meta h =
    (request_msg-IsRequest i meta h, requests-IsRequest n (suc i) meta h)

pub length-requests : (n i : ℕ) (meta : Metadata) → length (requests n i meta) ≡ n
length-requests zero i meta = refl
length-requests (suc n) i meta = ap suc (length-requests n (suc i) meta)

-- They are in step where the leader's hashes are the followers' states.
pub requests-InStep :
    (n i : ℕ) (meta : Metadata) → InStep (i % u32_mod) meta.mock_h1 meta.mock_h2 (requests n i meta)
unfolding request_msg
requests-InStep zero i meta = tt
requests-InStep (suc n) i meta = (
  refl,
  ap decode_le (take-append_exact 4 (encode_le 4 i) (zeros 12) (sym (length-encode_le 4 i)))
      ∙ decode-encode_u32 i,
  refl,
  refl,
  subst (λ e. InStep e meta.mock_h1 meta.mock_h2 (requests n (suc i) meta)) next
      (requests-InStep n (suc i) meta),
)
  where
    next : suc i % u32_mod ≡ (i % u32_mod + 1) % u32_mod
    next = omega arith
