-- ===== src/Alc/Lookup.antt =====
-- What is found among the rounds of alc/app_context.h after an update.
use replication_protos.Prelude.{
  ℕ, suc, ◌≡◌, ◌≢◌, refl, none, some, [], ◌∷◌, ◌++◌, arith, ◌==◌, if◌then◌else◌, length,
}
use replication_protos.Alc.Rounds.{Round, Rounds, find, set, erase}

pub find-set :
    (k j : ℕ) (r : Round) (m : Rounds) (s : Round)
    → find j m ≡ some s
    → find k (set j r m) ≡ (if j == k then some r else find k m)
unfolding find set
find-set k j r [] s e = cc
find-set k j r ((i, t) ∷ m) s e = ground (arith, find-set k j r m s)

pub find-append :
    (k j : ℕ) (r : Round) (m : Rounds)
    → find j m ≡ none
    → find k (m ++ ((j, r) ∷ [])) ≡ (if j == k then some r else find k m)
unfolding find
find-append k j r [] e = refl
find-append k j r ((i, t) ∷ m) e = ground (arith, find-append k j r m)

pub find-erase_ne : (k j : ℕ) (m : Rounds) → j ≢ k → find k (erase j m) ≡ find k m
unfolding find erase
find-erase_ne k j [] n = refl
find-erase_ne k j ((i, t) ∷ m) n = ground (arith, find-erase_ne k j m)

pub length-erase :
    (j : ℕ) (m : Rounds) (s : Round) → find j m ≡ some s → length m ≡ suc (length (erase j m))
unfolding find erase
length-erase j [] s e = cc
length-erase j ((i, t) ∷ m) s e = ground (arith, length-erase j m s)
