-- ===== src/Rf/Quorum.antt =====
-- What the counts of acknowledgements of rf/main.cc decide.
use replication_protos.Prelude.{
  ℕ, ◌+◌, ◌*◌, ◌-◌, ◌/◌, leb, ◌≡◌, true, false, List, [], ◌∷◌, ◌++◌, arith, ◌==◌, if◌then◌else◌,
  count, Bool, Bool-cases, inl, inr, ap, sym, ◌∙◌, refl, ==_sound,
}
use replication_protos.Rf.Acks.{Acks, Metadata, has_ack, erase, update_prp_acks, update_cmt_acks}

-- The metadata after the responses with the indexes `xs`, and the indexes for which a response
-- makes the leader send commits.
abbrev pub respond : List ℕ → Metadata → List ℕ × Metadata
respond [] m = ([], m)
respond (x ∷ xs) m =
    let (cmt, m') = update_prp_acks x m in
    let (ys, m'') = respond xs m' in (if cmt then x ∷ ys else ys, m'')

abbrev pub pending : ℕ → Metadata → ℕ
pending k m = if has_ack k m.prp_acks then 1 else 0

has_ack-append :
    (k i n : ℕ) (m : Acks)
    → has_ack k (m ++ ((i, n) ∷ [])) ≡ (if has_ack k m then true else (i == k))
unfolding has_ack
has_ack-append k i n [] = ground arith
has_ack-append k i n ((j, l) ∷ m) = ground (arith, has_ack-append k i n m)

has_ack-erase :
    (k i : ℕ) (m : Acks) → has_ack k (erase i m) ≡ (if i == k then false else has_ack k m)
unfolding has_ack erase
has_ack-erase k i [] = ground arith
has_ack-erase k i ((j, l) ∷ m) = ground (arith, has_ack-erase k i m)

-- One response flips whether one is pending, and commits where one was.
pending-update :
    (k x : ℕ) (m : Metadata)
    → pending k (update_prp_acks x m).1
        + 2 * (if (update_prp_acks x m).0 then (if x == k then 1 else 0) else 0)
      ≡ pending k m + (if x == k then 1 else 0)
unfolding update_prp_acks
pending-update k x m = ground (arith, has_ack-append k x 1 m.prp_acks, has_ack-erase k x m.prp_acks)

-- Two acknowledgements make a commit.
pub count-respond-pending :
    (k : ℕ) (xs : List ℕ) (m : Metadata)
    → 2 * count k (respond xs m).0 + pending k (respond xs m).1 ≡ count k xs + pending k m
count-respond-pending k [] m = omega arith
count-respond-pending k (x ∷ xs) m =
    ground (arith, pending-update k x m, count-respond-pending k xs (update_prp_acks x m).1)

-- In the counting of acknowledgements of rf/main.cc, an index for which none is pending is
-- committed half as often, rounded down, as its acknowledgements arrive, whatever other indexes
-- arrive in between.
pub count-respond :
    (k : ℕ) (xs : List ℕ) (m : Metadata)
    → has_ack k m.prp_acks ≡ false
    → count k (respond xs m).0 ≡ count k xs / 2
count-respond k xs m h = ground (arith, count-respond-pending k xs m)

-- The metadata after the acknowledgements of the commits `xs`, and the indexes for which
-- `update_cmt_acks` answers true.
abbrev pub settle : List ℕ → Metadata → List ℕ × Metadata
settle [] m = ([], m)
settle (x ∷ xs) m =
    let (fin, m') = update_cmt_acks x m in
    let (ys, m'') = settle xs m' in (if fin then x ∷ ys else ys, m'')

abbrev pub noted : ℕ → Metadata → ℕ
noted k m = if has_ack k m.cmt_acks then 1 else 0

noted-update :
    (k x : ℕ) (m : Metadata)
    → (has_ack k (update_cmt_acks x m).1.cmt_acks ≡ (if x == k then true else has_ack k m.cmt_acks))
      × (has_ack k (update_cmt_acks x m).1.prp_acks ≡ (
          if (if x == k then has_ack k m.cmt_acks else false) then false else has_ack k m.prp_acks))
      × ((x == k) ≡ true → (update_cmt_acks x m).0 ≡ has_ack k m.cmt_acks)
unfolding update_cmt_acks
noted-update k x m = elim (Bool-cases (has_ack x m.cmt_acks)) [
  | inl t ↦ (
    rw t (here t),
    rw t (has_ack-erase k x m.prp_acks ∙ erased t),
    (λ same. rw t (sym t ∙ ap (λ j. has_ack j m.cmt_acks) (==_sound x k same))),
  )
  | inr f ↦ (
    rw f (has_ack-append k x 1 m.cmt_acks ∙ swap (has_ack k m.cmt_acks) (x == k)),
    rw f (kept f),
    (λ same. rw f (sym f ∙ ap (λ j. has_ack j m.cmt_acks) (==_sound x k same))),
  )
]
  where
    swap : (a b : Bool) → (if a then true else b) ≡ (if b then true else a)
    swap true true = refl
    swap true false = refl
    swap false true = refl
    swap false false = refl

    at : (x == k) ≡ true → has_ack x m.cmt_acks ≡ has_ack k m.cmt_acks
    at same = ap (λ j. has_ack j m.cmt_acks) (==_sound x k same)

    here :
        has_ack x m.cmt_acks ≡ true
        → has_ack k m.cmt_acks ≡ (if x == k then true else has_ack k m.cmt_acks)
    here t = ground (arith, at)

    erased :
        has_ack x m.cmt_acks ≡ true
        → (if x == k then false else has_ack k m.prp_acks) ≡ (
            if (if x == k then has_ack k m.cmt_acks else false)
            then false
            else has_ack k m.prp_acks)
    erased t = ground (arith, at)

    kept :
        has_ack x m.cmt_acks ≡ false
        → has_ack k m.prp_acks ≡ (
            if (if x == k then has_ack k m.cmt_acks else false)
            then false
            else has_ack k m.prp_acks)
    kept f = ground (arith, at)

-- For any series of acknowledgements of commits in rf/main.cc and any index: count those of the
-- index in the series, and one more if one is noted before. update_cmt_acks answers true for the
-- index one time less than this number, so every time but the first; the index is noted afterwards
-- just when the number is 1 or more, and is never erased from the noted ones; and its pending
-- acknowledgement of a proposal is gone if the number is 2 or more, and is as before otherwise.
pub count-settle :
    (k : ℕ) (xs : List ℕ) (m : Metadata)
    → (count k (settle xs m).0 ≡ noted k m + count k xs - 1)
      × (has_ack k (settle xs m).1.cmt_acks ≡ leb 1 (noted k m + count k xs))
      × (has_ack k (settle xs m).1.prp_acks
          ≡ (if leb 2 (noted k m + count k xs) then false else has_ack k m.prp_acks))
count-settle k [] m = (ground arith, ground arith, ground arith)
count-settle k (x ∷ xs) m =
    let (u, v, w) = noted-update k x m in
    let (a, b, c) = count-settle k xs (update_cmt_acks x m).1 in
    (
      ground (arith, u, v, w, a, b, c),
      ground (arith, u, v, w, a, b, c),
      ground (arith, u, v, w, a, b, c),
    )
