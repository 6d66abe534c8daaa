-- ===== src/Outcome.antt =====
-- The outcome of code that can leave the process: a value, `exit(code)`, or a fault (an access of
-- memory out of bounds).
use replication_protos.Prelude.{Option, none, some, ◌≡◌, refl, ℕ}

pub data Outcome {ℓ} (A : Type ℓ) : Type ℓ where
  ok : A → Outcome A
  exited : ℕ → Outcome A
  fault : Outcome A

infixl 5 ◌>>=◌ ◌>>◌
abbrev pub ◌>>=◌ {ℓ κ} : {A : Type ℓ} {B : Type κ} → Outcome A → (A → Outcome B) → Outcome B
ok a >>= f = f a
exited n >>= f = exited n
fault >>= f = fault

abbrev pub ◌>>◌ {ℓ} : {B : Type ℓ} → Outcome (Unit {0}) → Outcome B → Outcome B
m >> k = m >>= λ _. k

-- An access of memory.
abbrev pub access {ℓ} : {A : Type ℓ} → Option A → Outcome A
access none = fault
access (some a) = ok a

-- Inversion of a chain that succeeds.
pub >>=-eq-ok {ℓ κ} :
    {A : Type ℓ} {B : Type κ} {end : B} (first : Outcome A) (next : A → Outcome B)
    → (first >>= next) ≡ ok end
    → (found : A) × (first ≡ ok found) × (next found ≡ ok end)
>>=-eq-ok fault next e = cc
>>=-eq-ok (exited n) next e = cc
>>=-eq-ok (ok found) next e = (found, refl, e)

pub access-eq-ok {ℓ} : {A : Type ℓ} (o : Option A) {a : A} → access o ≡ ok a → o ≡ some a
access-eq-ok none h = cc
access-eq-ok (some a) h = cc

-- A read whose continuation always faults.
pub access-fault {ℓ κ} :
    {A : Type ℓ} {B : Type κ} (o : Option A) (f : A → Outcome B)
    → ((a : A) → f a ≡ fault)
    → (access o >>= f) ≡ fault
access-fault none f h = refl
access-fault (some a) f h = h a

pub ok_injective {ℓ} : {A : Type ℓ} {a b : A} → ok a ≡ ok b → a ≡ b
ok_injective e = cc
