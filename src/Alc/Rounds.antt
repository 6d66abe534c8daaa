-- ===== src/Alc/Rounds.antt =====
-- alc/app_context.h: `protocol_metadata`, the rounds that a node knows. `proto_meta` and `ucmt_reqs` are
-- association lists. An `int` is its bit pattern; a key of `proto_meta` is a `uint64_t`. `proto_meta[k]`
-- of a missing key is a null pointer, and its use a fault.
use replication_protos.Prelude.{
  ℕ, zero, suc, ◌+◌, ◌^◌, ◌%◌, Bool, true, false, Option, none, some, List, [], ◌∷◌, ◌++◌, ◌==◌,
  ltb, if◌then◌else◌, ◌>>=◌, Bytes, length, sign_extend, u32_mod, u64_mod,
}

-- `tot_acks`: 2 requests, one from each other node, and 2 acknowledgements of the own request.
abbrev pub tot_acks : ℕ
tot_acks = 4

abbrev pub Requests : Type 0
Requests = List (ℕ × Bytes)

-- `struct metadata`
pub record Round : Type 0 where
  pub nb_acks : ℕ
  pub nb_cmts : ℕ
  pub under_commit : Bool
  pub ucmt_reqs : Requests

abbrev pub Rounds : Type 0
Rounds = List (ℕ × Round)

pub record Metadata : Type 0 where
  pub cmt_rd : ℕ
  pub cur_rd : ℕ
  pub followers : List ℕ
  pub proto_meta : Rounds

unfoldable pub find : ℕ → Rounds → Option Round
find k [] = none
find k ((j, r) ∷ m) = if j == k then some r else find k m

-- A write through `proto_meta[k]`, for a key that is there.
unfoldable pub set : ℕ → Round → Rounds → Rounds
set k r [] = []
set k r ((j, s) ∷ m) = if j == k then (j, r) ∷ m else (j, s) ∷ set k r m

unfoldable pub erase : ℕ → Rounds → Rounds
erase k [] = []
erase k ((j, s) ∷ m) = if j == k then m else (j, s) ∷ erase k m

unfoldable pub has_req : ℕ → Requests → Bool
has_req id [] = false
has_req id ((k, b) ∷ m) = if k == id then true else has_req id m

-- `insert` does nothing where the key is present.
unfoldable pub insert_req : ℕ → Bytes → Requests → Requests
insert_req id b m = if has_req id m then m else m ++ ((id, b) ∷ [])

abbrev pub new_round : ℕ → Bytes → Round
new_round sender req = record {
  nb_acks = 0;
  nb_cmts = 0;
  under_commit = false;
  ucmt_reqs = (sender, req) ∷ [];
}

-- `rd` is an `int`.
unfoldable pub add_recv_req : ℕ → Bytes → ℕ → Metadata → Metadata
add_recv_req sender reqs rd m = record m {
  proto_meta = elim (find (sign_extend rd) m.proto_meta) [
    | none ↦ m.proto_meta ++ ((sign_extend rd, new_round sender reqs) ∷ [])
    | some r ↦
        set (sign_extend rd) (record r { ucmt_reqs = insert_req sender reqs r.ucmt_reqs })
          m.proto_meta
  ];
}

-- `proto_meta[key]->nb_acks++` and `proto_meta[key]->nb_cmts++`.
unfoldable pub count_ack : ℕ → Metadata → Option Metadata
count_ack key m = do
  r ← find key m.proto_meta
  some (record m {
    proto_meta = set key (record r { nb_acks = (r.nb_acks + 1) % u64_mod }) m.proto_meta;
  })

unfoldable pub count_cmt : ℕ → Metadata → Option Metadata
count_cmt key m = do
  r ← find key m.proto_meta
  some (record m {
    proto_meta = set key (record r { nb_cmts = (r.nb_cmts + 1) % u64_mod }) m.proto_meta;
  })

unfoldable pub can_commit : ℕ → ℕ → Metadata → Option (Bool × Metadata)
can_commit nodes cns_rd m = do
  r ← find (sign_extend cns_rd) m.proto_meta
  if r.nb_acks == nodes
      then (if r.under_commit
          then some (false, m)
          else some (
            true,
            record m {
              proto_meta = set (sign_extend cns_rd) (record r { under_commit = true }) m.proto_meta;
            },
          ))
      else some (false, m)

-- The key of the round `cmt_rd + 1`.
unfoldable pub next_key : Metadata → ℕ
next_key m = sign_extend ((m.cmt_rd + 1) % u32_mod)

unfoldable pub is_round_completed : ℕ → Metadata → Bool × Metadata
unfolding next_key
is_round_completed nodes m = elim (find (next_key m) m.proto_meta) [
  | none ↦ (false, m)
  | some r ↦
      if r.nb_cmts == nodes
      then (
        true,
        record m {
          proto_meta = erase (next_key m) m.proto_meta;
          cmt_rd = (m.cmt_rd + 1) % u32_mod;
        },
      )
      else (false, m)
]

-- `a < b` for two values of type `int`.
unfoldable pub signed_lt : ℕ → ℕ → Bool
signed_lt a b = ltb ((a + 2 ^ 31) % u32_mod) ((b + 2 ^ 31) % u32_mod)

-- The loop of `commit_completed_rds`, with fuel.
unfoldable pub commit_rds : ℕ → ℕ → Metadata → Option Metadata
commit_rds zero nodes m = none
commit_rds (suc fuel) nodes m =
    let rest = commit_rds fuel nodes (is_round_completed nodes m).1 in
    if signed_lt m.cmt_rd m.cur_rd
    then (if (is_round_completed nodes m).0 then rest else some (is_round_completed nodes m).1)
    else some m

-- A round that is committed is erased, so there are no more turns than rounds.
unfoldable pub commit_completed_rds : ℕ → Metadata → Option Metadata
commit_completed_rds nodes m = commit_rds (suc (length m.proto_meta)) nodes m
