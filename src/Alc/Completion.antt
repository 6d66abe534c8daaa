-- ===== src/Alc/Completion.antt =====
-- alc/main.cc and alc/app_context.h: the commits that other nodes send, and the responses to the own.
use replication_protos.Prelude.{
  ℕ, ◌+◌, ◌%◌, ◌^◌, ◌≤◌, ◌<◌, ◌≡◌, ◌⊎◌, refl, ap, sym, subst, ◌∙◌, true, false, Bool-cases, inl,
  inr, some, List, [], ◌∷◌, ◌++◌, append-nil, arith, ◌==◌, ==_sound, ==_differ, if◌then◌else◌,
  count, u64_mod, some_injective,
}
use replication_protos.Rpc.{Effect, reply, requests, requests-append}
use replication_protos.Alc.Rounds.{Round, Metadata, tot_acks, find, set, next_key, count_cmt}
use replication_protos.Alc.Lookup.{find-set, find-erase_ne}
use replication_protos.Alc.Commit.{IsDue, Commits, here, next, commit_completed_rds-Commits}
use replication_protos.Alc.Node.{
  AppContext, Event, batch_sent, committed, send_response, cmt_response, cns_rd_of, seq_idx_of,
  cont_func_cmt, req_handler_cmt, emit, cmt_msg_bytes, ack_msg,
}
use replication_protos.Alc.Run.{dispatch, dispatch_all}
use replication_protos.Alc.Quorum.{sign_extend_small}

-- The round `k` has `n` commits, or it has had all of them and may be forgotten.
abbrev pub Has : ℕ → Metadata → ℕ → Type 0
Has k m n = ((r : Round) × (find k m.proto_meta ≡ some r) × (r.nb_cmts ≡ n)) ⊎ (n ≡ tot_acks)

-- To commit rounds does not change this.
Commits-Has : {m m' : Metadata} (k n : ℕ) → Commits tot_acks m m' → Has k m n → Has k m' n
Commits-Has k n here had = had
Commits-Has k n (next d steps) (inr full) = inr full
Commits-Has {m} k n (next d steps) (inl (r, e, c)) = elim (Bool-cases (next_key m == k)) [
  | inl t ↦ inr (sym c ∙ ap (λ s. s.nb_cmts) (same t d) ∙ d.complete)
  | inr t ↦
      Commits-Has k n steps
        (inl (r, find-erase_ne k (next_key m) m.proto_meta (==_differ _ _ t) ∙ e, c))
]
  where
    same : (next_key m == k) ≡ true → (due : IsDue tot_acks m) → r ≡ due.round
    same t due =
        some_injective (sym e ∙ ap (λ j. find j m.proto_meta) (sym (==_sound _ _ t)) ∙ due.known)

-- One commit of the round `x` is counted.
count_cmt-Has :
    (x : ℕ) (m : Metadata) (n : ℕ → ℕ)
    → ((k : ℕ) → Has k m (n k))
    → n x + 1 ≤ tot_acks
    → (m1 : Metadata) × (count_cmt x m ≡ some m1)
      × ((k : ℕ) → Has k m1 (n k + (if x == k then 1 else 0)))
unfolding count_cmt
count_cmt-Has x m n had room = elim (had x) [
  | inr full ↦ absurd (omega (arith, full, room))
  | inl (r, e, c) ↦
      let r1 : Round = record r { nb_cmts = (r.nb_cmts + 1) % u64_mod } in
      let m1 : Metadata = record m { proto_meta = set x r1 m.proto_meta } in
      (m1, rw e refl, (λ k. counted r r1 e c refl k (find-set k x r1 m.proto_meta r e)))
]
  where
    one_more :
        (r r1 : Round) (k : ℕ)
        → find x m.proto_meta ≡ some r
        → r.nb_cmts ≡ n x
        → r1.nb_cmts ≡ (r.nb_cmts + 1) % u64_mod
        → (x == k) ≡ true
        → r1.nb_cmts ≡ n k + 1
    one_more r r1 k e c f t = omega (arith, f, c, room, ap n (==_sound x k t))

    other :
        (r1 : Round) (k : ℕ)
        → find k (set x r1 m.proto_meta) ≡ (if x == k then some r1 else find k m.proto_meta)
        → (x == k) ≡ false
        → Has k m (n k)
        → Has k (record m { proto_meta = set x r1 m.proto_meta }) (n k + (if x == k then 1 else 0))
    other r1 k at t (inl (s, e, c)) = inl (s, at ∙ rw t e, c ∙ rw t (omega arith))
    other r1 k at t (inr full) = inr (rw t (omega (arith, full)))

    counted :
        (r r1 : Round)
        → find x m.proto_meta ≡ some r
        → r.nb_cmts ≡ n x
        → r1.nb_cmts ≡ (r.nb_cmts + 1) % u64_mod
        → (k : ℕ)
        → find k (set x r1 m.proto_meta) ≡ (if x == k then some r1 else find k m.proto_meta)
        → Has k (record m { proto_meta = set x r1 m.proto_meta }) (n k + (if x == k then 1 else 0))
    counted r r1 e c f k at = elim (Bool-cases (x == k)) [
      | inl t ↦ inl (r1, at ∙ rw t, rw t (one_more r r1 k e c f t))
      | inr t ↦ other r1 k at t (had k)
    ]

-- The event brings a commit of the round `x`: another node's, or a response to the own.
abbrev pub Brings : Event → ℕ → Type 0
Brings (committed b) x = seq_idx_of b ≡ some x
Brings (cmt_response b) x = (cns_rd_of b ≡ some x) × (x < 2 ^ 31)
Brings (batch_sent b) x = ⊥
Brings (send_response b) x = ⊥

abbrev pub BringAll : List Event → List ℕ → Type 0
BringAll [] [] = Unit
BringAll [] (x ∷ xs) = ⊥
BringAll (e ∷ es) [] = ⊥
BringAll (e ∷ es) (x ∷ xs) = Brings e x × BringAll es xs

-- What is left after an event: the counts, no round that is due, and nothing sent.
abbrev After : AppContext → AppContext → (ℕ → ℕ) → Type 0
After c d n =
    ((k : ℕ) → Has k d.metadata (n k))
    × ¬ IsDue tot_acks d.metadata
    × (requests d.trace ≡ requests c.trace)

bring_one :
    (e : Event) (x : ℕ) (c : AppContext) (n : ℕ → ℕ)
    → Brings e x
    → ((k : ℕ) → Has k c.metadata (n k))
    → n x + 1 ≤ tot_acks
    → (d : AppContext) × (dispatch e c ≡ some d) × After c d (λ k. n k + (if x == k then 1 else 0))
unfolding dispatch req_handler_cmt cont_func_cmt emit
bring_one (batch_sent b) x c n brings had room = absurd brings
bring_one (send_response b) x c n brings had room = absurd brings
bring_one (committed b) x c n brings had room =
    let (m1, run, has1) = count_cmt-Has x c.metadata n had room in
    let ((m2, commits), reached) = commit_completed_rds-Commits tot_acks m1 in
    let (steps, idle) = (reached m2).0 commits in
    let ack : Effect (Unit {0}) = reply (cmt_msg_bytes (ack_msg c.node_id x)) in
    (
      record c { metadata = m2; trace = c.trace ++ (ack ∷ []) },
      rw (brings, run, commits) refl,
      (
        (λ k. Commits-Has k (n k + (if x == k then 1 else 0)) steps (has1 k)),
        idle,
        requests-append c.trace (ack ∷ []) ∙ append-nil (requests c.trace),
      ),
    )
bring_one (cmt_response b) x c n (brings, small) had room =
    let (m1, run, has1) = count_cmt-Has x c.metadata n had room in
    let ((m2, commits), reached) = commit_completed_rds-Commits tot_acks m1 in
    let (steps, idle) = (reached m2).0 commits in
    (
      record c { metadata = m2 },
      rw (brings, sign_extend_small x small, run, commits) refl,
      ((λ k. Commits-Has k (n k + (if x == k then 1 else 0)) steps (has1 k)), idle, refl),
    )

-- A node of alc/main.cc handles commits of other nodes and responses to its own commits without a
-- fault, in any order, as long as each round gets no more than four in all, those before included,
-- and sends nothing but the replies. Afterwards every round has as many commits as arrived for it,
-- or had all four and may be forgotten, and no round is due that could be committed next. At the
-- start each round has the given number of commits or four, and none is due; responses are about
-- rounds below 2^31.
pub dispatch_all-BringAll :
    (es : List Event) (xs : List ℕ) (c : AppContext) (n : ℕ → ℕ)
    → BringAll es xs
    → ((k : ℕ) → Has k c.metadata (n k))
    → ((k : ℕ) → n k + count k xs ≤ tot_acks)
    → ¬ IsDue tot_acks c.metadata
    → (d : AppContext) × (dispatch_all es c ≡ some d)
      × ((k : ℕ) → Has k d.metadata (n k + count k xs))
      × ¬ IsDue tot_acks d.metadata
      × (requests d.trace ≡ requests c.trace)
unfolding dispatch_all
dispatch_all-BringAll [] [] c n brings had room idle =
    (c, refl, (λ k. subst (Has k c.metadata) (plus_none (n k)) (had k)), idle, refl)
  where
    plus_none : (m : ℕ) → m ≡ m + 0
    plus_none m = omega arith
dispatch_all-BringAll [] (x ∷ xs) c n brings had room idle = absurd brings
dispatch_all-BringAll (e ∷ es) [] c n brings had room idle = absurd brings
dispatch_all-BringAll (e ∷ es) (x ∷ xs) c n (first, brings) had room idle =
    let (d, run, (has1, idle1, quiet)) = bring_one e x c n first had (ground (arith, room x)) in
    let (f, runs, has2, idle2, quiet2) =
      dispatch_all-BringAll es xs d (λ k. n k + (if x == k then 1 else 0)) brings has1
        (λ k. omega (arith, room k)) idle1 in
    (
      f,
      rw run runs,
      (λ k.
          subst (Has k f.metadata) (regroup (n k) (if x == k then 1 else 0) (count k xs)) (has2 k)),
      idle2,
      quiet2 ∙ quiet,
    )
  where
    regroup : (a b c : ℕ) → (a + b) + c ≡ a + (b + c)
    regroup a b c = omega arith
