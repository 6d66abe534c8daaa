-- ===== src/Rf/Acks.antt =====
-- rf/main.cc: `protocol_metadata`, the leader's count of acknowledgements. The two maps from request
-- ids to acknowledgements are association lists. `src_node`, which the updates do not use, is left out.
use replication_protos.Prelude.{ℕ, Bool, true, false, List, [], ◌∷◌, ◌++◌, ◌==◌, if◌then◌else◌}

abbrev pub Acks : Type 0
Acks = List (ℕ × ℕ)

unfoldable pub has_ack : ℕ → Acks → Bool
has_ack idx [] = false
has_ack idx ((k, n) ∷ m) = if k == idx then true else has_ack idx m

unfoldable pub erase : ℕ → Acks → Acks
erase idx [] = []
erase idx ((k, n) ∷ m) = let rest = erase idx m in if k == idx then rest else (k, n) ∷ rest

pub record Metadata : Type 0 where
  pub leader : ℕ
  pub cmt_idx : ℕ
  pub prp_idx : ℕ
  pub followers : List ℕ
  pub prp_acks : Acks
  pub cmt_acks : Acks

unfoldable pub update_prp_acks : ℕ → Metadata → Bool × Metadata
update_prp_acks idx m =
    if has_ack idx m.prp_acks
    then (true, record m { prp_acks = erase idx m.prp_acks })
    else (false, record m { prp_acks = m.prp_acks ++ ((idx, 1) ∷ []) })

-- The second branch erases from `prp_acks`.
unfoldable pub update_cmt_acks : ℕ → Metadata → Bool × Metadata
update_cmt_acks idx m =
    if has_ack idx m.cmt_acks
    then (true, record m { prp_acks = erase idx m.prp_acks })
    else (false, record m { cmt_acks = m.cmt_acks ++ ((idx, 1) ∷ []) })
