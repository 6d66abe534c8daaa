-- ===== src/Alc/Filing.antt =====
-- alc/app_context.h: what filing a received request in its round changes.
use replication_protos.Prelude.{
  ℕ, ◌^◌, ◌<◌, ◌≡◌, refl, ap, sym, ◌∙◌, true, false, Bool-cases, Option, none, some, [], ◌∷◌, ◌++◌,
  ◌==◌, leb, ==_sound, ==_refl, if◌then◌else◌, inl, inr, Bytes, some_injective,
}
use replication_protos.Alc.Rounds.{
  Round, Rounds, Metadata, tot_acks, find, set, has_req, new_round, insert_req, add_recv_req,
}
use replication_protos.Alc.Lookup.{find-set, find-append}
use replication_protos.Alc.Quorum.{acks_of, acks, is_some, is_known, IsCounted, sign_extend_small}

-- What filing a request of round `x` changes.
pub record Filed (x : ℕ) (m m1 : Metadata) : Type 0 where
  pub counted : IsCounted m1
  pub same_acks : (k : ℕ) → acks k m1 ≡ acks k m
  pub known_there : is_known x m1 ≡ true
  pub known_kept : (k : ℕ) → is_known k m ≡ true → is_known k m1 ≡ true
  pub same_followers : m1.followers ≡ m.followers

-- Only the requests of round `x` change, or it is new and has no acknowledgement.
find-Filed :
    (x : ℕ) (m m1 : Metadata) (s : Round)
    → IsCounted m
    → s.nb_acks ≡ acks x m
    → s.under_commit ≡ leb tot_acks s.nb_acks
    → m1.followers ≡ m.followers
    → ((k : ℕ) → find k m1.proto_meta ≡ (if x == k then some s else find k m.proto_meta))
    → Filed x m m1
find-Filed x m m1 s counted acks_kept flag same at = record {
  counted = λ k r e. elim (Bool-cases (x == k)) [
    | inl t ↦ flagged (some_injective (sym e ∙ at k ∙ rw t))
    | inr t ↦ counted k r (sym (at k ∙ rw t) ∙ e)
  ];
  same_acks = λ k. ap acks_of (at k) ∙ kept k;
  known_there = ap is_some (at x) ∙ rw (==_refl x);
  known_kept = λ k known. ap is_some (at k) ∙ still k known;
  same_followers = same;
}
  where
    flagged : {r : Round} → r ≡ s → r.under_commit ≡ leb tot_acks r.nb_acks
    flagged q = rw (q, flag)

    kept : (k : ℕ) → acks_of (if x == k then some s else find k m.proto_meta) ≡ acks k m
    kept k = elim (Bool-cases (x == k)) [
      | inl t ↦ rw t (acks_kept ∙ ap (λ j. acks j m) (==_sound x k t))
      | inr t ↦ rw t
    ]

    still :
        (k : ℕ)
        → is_known k m ≡ true
        → is_some (if x == k then some s else find k m.proto_meta) ≡ true
    still k known = elim (Bool-cases (x == k)) [ inl t ↦ rw t | inr t ↦ rw t known ]

-- What a request makes of its round: a new round, or one more request where the sender has none.
abbrev pub filed_round : ℕ → Bytes → Option Round → Round
filed_round sender b none = record {
  nb_acks = 0;
  nb_cmts = 0;
  under_commit = false;
  ucmt_reqs = (sender, b) ∷ [];
}
filed_round sender b (some r) = record r {
  ucmt_reqs =
      (if has_req sender r.ucmt_reqs then r.ucmt_reqs else r.ucmt_reqs ++ ((sender, b) ∷ []));
}

-- Where a request of the round with the key `j` is filed.
abbrev file_at : ℕ → Bytes → ℕ → Metadata → Rounds
file_at sender b j m = elim (find j m.proto_meta) [
  | none ↦ m.proto_meta ++ ((j, new_round sender b) ∷ [])
  | some r ↦ set j (record r { ucmt_reqs = insert_req sender b r.ucmt_reqs }) m.proto_meta
]

file_at_new :
    (sender x : ℕ) (b : Bytes) (m : Metadata)
    → find x m.proto_meta ≡ none
    → file_at sender b x m ≡ m.proto_meta ++ ((x, new_round sender b) ∷ [])
file_at_new sender x b m e = rw (file_at, e)

file_at_known :
    (sender x : ℕ) (b : Bytes) (m : Metadata) (r : Round)
    → find x m.proto_meta ≡ some r
    → file_at sender b x m
      ≡ set x (record r { ucmt_reqs = insert_req sender b r.ucmt_reqs }) m.proto_meta
file_at_known sender x b m r e = rw (file_at, e)

file_at-x :
    (sender x k : ℕ) (b : Bytes) (m : Metadata)
    → x < 2 ^ 31
    → find k (add_recv_req sender b x m).proto_meta ≡ find k (file_at sender b x m)
unfolding add_recv_req
file_at-x sender x k b m h = ap (λ j. find k (file_at sender b j m)) (sign_extend_small x h)

-- No other round changes.
pub find-add_recv_req :
    (sender x : ℕ) (b : Bytes) (m : Metadata)
    → x < 2 ^ 31
    → (k : ℕ)
    → find k (add_recv_req sender b x m).proto_meta
      ≡ (if x == k then some (filed_round sender b (find x m.proto_meta)) else find k m.proto_meta)
unfolding insert_req
find-add_recv_req sender x b m h k = file_at-x sender x k b m h ∙ cases (find x m.proto_meta) refl
  where
    cases :
        (o : Option Round)
        → find x m.proto_meta ≡ o
        → find k (file_at sender b x m) ≡ (
            if x == k
            then some (filed_round sender b (find x m.proto_meta))
            else find k m.proto_meta)
    cases none e =
        ap (find k) (file_at_new sender x b m e)
        ∙ find-append k x (new_round sender b) m.proto_meta e
        ∙ ap (λ o. if x == k then some (filed_round sender b o) else find k m.proto_meta) (sym e)
    cases (some r) e =
        ap (find k) (file_at_known sender x b m r e)
        ∙ find-set k x (record r { ucmt_reqs = insert_req sender b r.ucmt_reqs }) m.proto_meta r e
        ∙ ap (λ o. if x == k then some (filed_round sender b o) else find k m.proto_meta) (sym e)

pub file_req :
    (sender x : ℕ) (b : Bytes) (m : Metadata)
    → x < 2 ^ 31
    → IsCounted m
    → Filed x m (add_recv_req sender b x m)
unfolding add_recv_req
file_req sender x b m h counted =
    find-Filed x m (add_recv_req sender b x m) (filed_round sender b (find x m.proto_meta)) counted
      (same_acks (find x m.proto_meta)) (flag (find x m.proto_meta) refl) refl
      (find-add_recv_req sender x b m h)
  where
    same_acks : (o : Option Round) → (filed_round sender b o).nb_acks ≡ acks_of o
    same_acks none = refl
    same_acks (some r) = refl

    flag :
        (o : Option Round)
        → find x m.proto_meta ≡ o
        → (filed_round sender b o).under_commit ≡ leb tot_acks (filed_round sender b o).nb_acks
    flag none e = refl
    flag (some r) e = counted x r e
