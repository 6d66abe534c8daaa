-- ===== src/Alc/Quorum.antt =====
-- alc/app_context.h: what one acknowledgement does to the rounds, and when it decides a commit.
use replication_protos.Prelude.{
  ℕ, ◌+◌, ◌^◌, ◌%◌, ◌<◌, ◌≡◌, refl, ap, sym, subst, ◌∙◌, Bool, true, false, Bool-cases, Option,
  none, some, arith, ◌==◌, leb, ==_sound, ==_refl, if◌then◌else◌, inl, inr, sign_extend, u64_mod,
  some_injective,
}
use replication_protos.Alc.Rounds.{Round, Metadata, tot_acks, find, set, count_ack, can_commit}
use replication_protos.Alc.Lookup.{find-set}

-- The acknowledgements of a round, none where it is not known.
abbrev pub acks_of : Option Round → ℕ
acks_of none = 0
acks_of (some r) = r.nb_acks

abbrev pub acks : ℕ → Metadata → ℕ
acks k m = acks_of (find k m.proto_meta)

abbrev pub is_some : Option Round → Bool
is_some none = false
is_some (some r) = true

abbrev pub is_known : ℕ → Metadata → Bool
is_known k m = is_some (find k m.proto_meta)

-- A round is under commit once it has its four acknowledgements, and not before.
abbrev pub IsCounted : Metadata → Type 0
IsCounted m =
    (k : ℕ) (r : Round) → find k m.proto_meta ≡ some r → r.under_commit ≡ leb tot_acks r.nb_acks

pub sign_extend_small : (x : ℕ) → x < 2 ^ 31 → sign_extend x ≡ x
unfolding sign_extend
sign_extend_small x h = ground arith

known_round :
    (k : ℕ) (m : Metadata) → is_known k m ≡ true → (r : Round) × (find k m.proto_meta ≡ some r)
known_round k m h = cases (find k m.proto_meta) refl
  where
    none_known : is_some none ≡ true → ⊥
    none_known e = cc

    cases :
        (o : Option Round) → find k m.proto_meta ≡ o → (r : Round) × (find k m.proto_meta ≡ some r)
    cases none e = absurd (none_known (ap is_some (sym e) ∙ h))
    cases (some r) e = (r, e)

-- One more acknowledgement.
abbrev pub acked : Round → Round
acked r = record r { nb_acks = (r.nb_acks + 1) % u64_mod }

-- A round after an acknowledgement.
abbrev pub noted : Round → Round
noted r = record r { nb_acks = r.nb_acks + 1; under_commit = leb tot_acks (r.nb_acks + 1) }

-- Counting an acknowledgement of a known round `x` decides its commit exactly where it is the fourth.
note_round :
    (x : ℕ) (m : Metadata) (r : Round)
    → x < 2 ^ 31
    → IsCounted m
    → find x m.proto_meta ≡ some r
    → r.nb_acks + 1 < u64_mod
    → (m1 : Metadata) × (m2 : Metadata) × (count_ack x m ≡ some m1)
      × (can_commit tot_acks x m1 ≡ some (((r.nb_acks + 1) == tot_acks), m2))
      × (m2.followers ≡ m.followers)
      × (m2.cur_rd ≡ m.cur_rd)
      × ((k : ℕ) → find k m2.proto_meta ≡ (if x == k then some (noted r) else find k m.proto_meta))
unfolding count_ack can_commit
note_round x m r h counted e b = elim (Bool-cases ((r.nb_acks + 1) == tot_acks)) [
  | inl t ↦ (
    m1,
    record m1 { proto_meta = set x (noted r) m1.proto_meta },
    rw e,
    rw (sign_extend_small x h, found, wrapped, t, open_before t, full t),
    refl,
    refl,
    (λ k.
        find-set k x (noted r) m1.proto_meta (acked r) found
        ∙ hidden k (find-set k x (acked r) m.proto_meta r e)),
  )
  | inr t ↦ (
    m1,
    m1,
    rw e,
    rw (sign_extend_small x h, found, wrapped, t),
    refl,
    refl,
    (λ k.
        find-set k x (acked r) m.proto_meta r e
        ∙ ap (λ s. if x == k then some s else find k m.proto_meta) (unchanged t)),
  )
]
  where
    m1 : Metadata
    m1 = record m { proto_meta = set x (acked r) m.proto_meta }

    found : find x m1.proto_meta ≡ some (acked r)
    found = find-set x x (acked r) m.proto_meta r e ∙ rw (==_refl x)

    wrapped : (r.nb_acks + 1) % u64_mod ≡ r.nb_acks + 1
    wrapped = omega (arith, b)

    full : ((r.nb_acks + 1) == tot_acks) ≡ true → leb tot_acks (r.nb_acks + 1) ≡ true
    full t = ground (arith, t)

    open_before : ((r.nb_acks + 1) == tot_acks) ≡ true → r.under_commit ≡ false
    open_before t = counted x r e ∙ ground (arith, t)

    same_side :
        ((r.nb_acks + 1) == tot_acks) ≡ false
        → leb tot_acks r.nb_acks ≡ leb tot_acks (r.nb_acks + 1)
    same_side t = ground (arith, t)

    unchanged : ((r.nb_acks + 1) == tot_acks) ≡ false → acked r ≡ noted r
    unchanged t =
        ap (λ n. record r { nb_acks = n }) wrapped
        ∙ ap (λ u. record r { nb_acks = r.nb_acks + 1; under_commit = u })
            (counted x r e ∙ same_side t)

    hidden :
        (k : ℕ)
        → find k m1.proto_meta ≡ (if x == k then some (acked r) else find k m.proto_meta)
        → (if x == k then some (noted r) else find k m1.proto_meta)
          ≡ (if x == k then some (noted r) else find k m.proto_meta)
    hidden k q = ground (arith, q)

-- What follows of it for the counts.
pub record Noted (x : ℕ) (m m2 : Metadata) : Type 0 where
  pub counted : IsCounted m2
  pub one_more : (k : ℕ) → acks k m2 ≡ acks k m + (if x == k then 1 else 0)
  pub kept : (k : ℕ) → is_known k m2 ≡ is_known k m
  pub same_followers : m2.followers ≡ m.followers
  pub same_current : m2.cur_rd ≡ m.cur_rd

noted-IsCounted :
    (x : ℕ) (m m2 : Metadata) (r : Round)
    → IsCounted m
    → ((k : ℕ) → find k m2.proto_meta ≡ (if x == k then some (noted r) else find k m.proto_meta))
    → IsCounted m2
noted-IsCounted x m m2 r counted at k s e = elim (Bool-cases (x == k)) [
  | inl t ↦ under t (some_injective (sym e ∙ at k ∙ rw t))
  | inr t ↦ counted k s (sym (at k ∙ rw t) ∙ e)
]
  where
    under : (x == k) ≡ true → s ≡ noted r → s.under_commit ≡ leb tot_acks s.nb_acks
    under t q = rw q

pub note :
    (x : ℕ) (m : Metadata)
    → x < 2 ^ 31
    → IsCounted m
    → is_known x m ≡ true
    → acks x m + 1 < u64_mod
    → (m1 : Metadata) × (m2 : Metadata) × (count_ack x m ≡ some m1)
      × (can_commit tot_acks x m1 ≡ some (((acks x m + 1) == tot_acks), m2))
      × Noted x m m2
note x m h counted known b =
    let (r, e) = known_round x m known in
    let count : acks x m ≡ r.nb_acks = ap acks_of e in
    let (m1, m2, run, decided, same, current, at) =
      note_round x m r h counted e (omega (arith, b, count)) in
    (
      m1,
      m2,
      run,
      decided ∙ ap (λ n. some (((n + 1) == tot_acks), m2)) (sym count),
      record {
        counted = noted-IsCounted x m m2 r counted at;
        one_more = λ k. ap acks_of (at k) ∙ more k r e;
        kept = λ k. ap is_some (at k) ∙ still k r e;
        same_followers = same;
        same_current = current;
      },
    )
  where
    more :
        (k : ℕ) (r : Round)
        → find x m.proto_meta ≡ some r
        → acks_of (if x == k then some (noted r) else find k m.proto_meta)
          ≡ acks k m + (if x == k then 1 else 0)
    more k r e = elim (Bool-cases (x == k)) [
      | inl t ↦ rw (t, sym (ap (λ j. find j m.proto_meta) (==_sound x k t)), e)
      | inr t ↦ rw t (omega arith)
    ]

    still :
        (k : ℕ) (r : Round)
        → find x m.proto_meta ≡ some r
        → is_some (if x == k then some (noted r) else find k m.proto_meta) ≡ is_known k m
    still k r e = elim (Bool-cases (x == k)) [
      | inl t ↦ rw (t, sym (ap (λ j. find j m.proto_meta) (==_sound x k t)), e)
      | inr t ↦ rw t
    ]

-- Where no commit is decided, only the acknowledgement is counted.
can_commit_same : (n x : ℕ) (m m2 : Metadata) → can_commit n x m ≡ some (false, m2) → m2 ≡ m
unfolding can_commit
can_commit_same n x m m2 e = ground arith

pub count_ack_below :
    (x : ℕ) (m : Metadata)
    → x < 2 ^ 31
    → IsCounted m
    → is_known x m ≡ true
    → acks x m + 1 < tot_acks
    → (m1 : Metadata) × (count_ack x m ≡ some m1) × Noted x m m1
count_ack_below x m h counted known b =
    let (m1, m2, run, decides, n) = note x m h counted known (omega arith) in
    (
      m1,
      run,
      subst (Noted x m) (can_commit_same tot_acks x m1 m2 (decides ∙ ap (λ t. some (t, m2)) below))
          n,
    )
  where
    below : ((acks x m + 1) == tot_acks) ≡ false
    below = ground (arith, b)
