-- ===== src/Alc/Commit.antt =====
-- alc/app_context.h: what `commit_completed_rds` commits.
use replication_protos.Prelude.{
  ℕ, zero, suc, ◌+◌, ◌%◌, ◌<◌, ◌≡◌, ◌⊎◌, ◌↔◌, inl, inr, refl, ap, sym, subst, ◌∙◌, Bool, true,
  false, Bool-cases, Option, none, some, arith, ◌==◌, ==_sound, ==_differ, if◌then◌else◌, length,
  u32_mod, some_injective,
}
use replication_protos.Alc.Rounds.{
  Round, Metadata, find, erase, next_key, signed_lt, is_round_completed, commit_rds,
  commit_completed_rds,
}
use replication_protos.Alc.Lookup.{length-erase}

-- The next round is committed: `cmt_rd` goes on, and the round is forgotten.
abbrev pub committed : Metadata → Metadata
committed m = record m {
  proto_meta = erase (next_key m) m.proto_meta;
  cmt_rd = (m.cmt_rd + 1) % u32_mod;
}

-- It is not beyond the current round, is known, and `nodes` commits have come for it.
pub record IsDue (nodes : ℕ) (m : Metadata) : Type 0 where
  pub behind : signed_lt m.cmt_rd m.cur_rd ≡ true
  pub round : Round
  pub known : find (next_key m) m.proto_meta ≡ some round
  pub complete : round.nb_cmts ≡ nodes

-- Rounds that are due are committed one after the other.
pub data Commits (nodes : ℕ) : Metadata → Metadata → Type 0 where
  here : {m : Metadata} → Commits nodes m m
  next : {m m' : Metadata} → IsDue nodes m → Commits nodes (committed m) m' → Commits nodes m m'

-- A round that is not due is beyond the current one, unknown or incomplete.
IsDue-cases :
    (nodes : ℕ) (m : Metadata)
    → (IsDue nodes m × (is_round_completed nodes m ≡ (true, committed m)))
      ⊎ (¬ IsDue nodes m
          × ((signed_lt m.cmt_rd m.cur_rd ≡ false) ⊎ (is_round_completed nodes m ≡ (false, m))))
unfolding is_round_completed
IsDue-cases nodes m = elim (Bool-cases (signed_lt m.cmt_rd m.cur_rd)) [
  | inr f ↦ inr ((λ d. clash (sym f ∙ d.behind)), inl f)
  | inl b ↦ known b (find (next_key m) m.proto_meta) refl
]
  where
    clash : false ≡ true → ⊥
    clash q = cc

    absent : {r : Round} → none ≡ some r → ⊥
    absent q = cc

    known :
        signed_lt m.cmt_rd m.cur_rd ≡ true
        → (o : Option Round) → find (next_key m) m.proto_meta ≡ o
        → (IsDue nodes m × (is_round_completed nodes m ≡ (true, committed m)))
          ⊎ (¬ IsDue nodes m
              × ((signed_lt m.cmt_rd m.cur_rd ≡ false) ⊎ (is_round_completed nodes m ≡ (false, m))))
    known b none e = inr ((λ d. absent (sym e ∙ d.known)), inr (rw (e, is_round_completed)))
    known b (some r) e = elim (Bool-cases (r.nb_cmts == nodes)) [
      | inl t ↦ inl (
        record { behind = b; round = r; known = e; complete = ==_sound _ _ t },
        rw (e, is_round_completed, t),
      )
      | inr t ↦ inr (
        (λ d.
            ==_differ _ _ t (ap (λ x. x.nb_cmts) (some_injective (sym e ∙ d.known)) ∙ d.complete)),
        inr (rw (e, is_round_completed, t)),
      )
    ]

-- With more fuel than rounds the loop ends, and it ends where no round is due.
commit_rds-Commits :
    (fuel nodes : ℕ) (m : Metadata)
    → length m.proto_meta < fuel
    → (m' : Metadata) × (commit_rds fuel nodes m ≡ some m') × Commits nodes m m' × ¬ IsDue nodes m'
unfolding commit_rds
commit_rds-Commits zero nodes m h = absurd (omega arith)
commit_rds-Commits (suc fuel) nodes m h = elim (IsDue-cases nodes m) [
  | inl (d, e) ↦
      let (m', run, steps, stop) =
        commit_rds-Commits fuel nodes (committed m)
          (omega (arith, h, length-erase (next_key m) m.proto_meta d.round d.known)) in
      (m', rw (d.behind, e) run, next d steps, stop)
  | inr (idle, inl f) ↦ (m, rw f, here, idle)
  | inr (idle, inr e) ↦ (m, rw e (either (signed_lt m.cmt_rd m.cur_rd)), here, idle)
]
  where
    either : (t : Bool) → (if t then some m else some m) ≡ some m
    either true = refl
    either false = refl

-- There is only one way to commit all that is due.
Commits-unique :
    {nodes : ℕ} {m m' m'' : Metadata}
    → Commits nodes m m'
    → ¬ IsDue nodes m'
    → Commits nodes m m''
    → ¬ IsDue nodes m''
    → m' ≡ m''
Commits-unique here idle here idle' = refl
Commits-unique here idle (next d r) idle' = absurd (idle d)
Commits-unique (next d r) idle here idle' = absurd (idle' d)
Commits-unique (next d r) idle (next d' r') idle' = Commits-unique r idle r' idle'

-- commit_completed_rds of alc/app_context.h returns for every metadata, and what it leaves is the
-- one metadata that is reached by committing, one after the other, rounds that follow the last
-- committed one, are not beyond the current round, are known and have all their commits, and in
-- which no such round is left.
pub commit_completed_rds-Commits :
    (nodes : ℕ) (m : Metadata)
    → ((m' : Metadata) × (commit_completed_rds nodes m ≡ some m'))
      × ((m' : Metadata)
          → (commit_completed_rds nodes m ≡ some m') ↔ (Commits nodes m m' × ¬ IsDue nodes m'))
unfolding commit_completed_rds
commit_completed_rds-Commits nodes m =
    let (m', run, steps, idle) =
      commit_rds-Commits (suc (length m.proto_meta)) nodes m (omega arith) in
    (
      (m', run),
      (λ m''. (
        (λ e.
            let same = some_injective (sym run ∙ e) in
            (subst (Commits nodes m) same steps, subst (λ x. ¬ IsDue nodes x) same idle)),
        (λ (steps', idle'). run ∙ ap some (Commits-unique steps idle steps' idle')),
      )),
    )
