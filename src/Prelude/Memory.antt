-- ===== src/Prelude/Memory.antt =====
-- Byte memory: what `memcpy` and `memcmp` do with a heap block. A block is the list of its bytes,
-- and an access that leaves the block is a fault, `none`.
use Prim.Native.Nat.{ℕ, zero, suc, ◌+◌, ◌≤◌, ◌<◌}
use mathlib.Core.Path.{◌≡◌, refl, ap, sym, ◌∙◌}
use mathlib.Core.Logic.{◌≢◌}
use mathlib.Core.Bool.{Bool, true, false, ◌&&◌}
use mathlib.Core.Option.{Option, none, some}
use mathlib.Core.List.{List, [], ◌∷◌, ◌++◌, append_assoc}
use native.Mathlib.Omega.{arith}
use replication_protos.Prelude.Tests.{leb, ◌==◌, if◌then◌else◌, le→leb, gt→leb}
use replication_protos.Prelude.Lists.{
  length, take, drop, replicate, length-append, length-take, length-drop, take-append_exact,
  drop-append_exact, take-append_le, drop-append_le, take_all, drop_skip,
}

abbrev pub Bytes : Type 0
Bytes = List ℕ

-- `new uint8_t[n]()`, as `std::make_unique<uint8_t[]>(n)` makes it.
abbrev pub zeros : ℕ → Bytes
zeros n = replicate n 0

-- The `n` bytes from `off` on.
unfoldable pub load : ℕ → ℕ → Bytes → Option Bytes
load off n block = if leb (off + n) (length block) then some (take n (drop off block)) else none

-- The block with `bytes` written from `off` on.
unfoldable pub store : ℕ → Bytes → Bytes → Option Bytes
store off bytes block =
    if leb (off + length bytes) (length block)
    then some (take off block ++ (bytes ++ drop (off + length bytes) block))
    else none

-- `memcmp(a, b, n) == 0` for blocks of one length.
pub same_bytes : Bytes → Bytes → Bool
same_bytes [] [] = true
same_bytes [] (b ∷ ys) = false
same_bytes (a ∷ xs) [] = false
same_bytes (a ∷ xs) (b ∷ ys) = a == b && same_bytes xs ys

pub same_bytes_refl : (xs : Bytes) → same_bytes xs xs ≡ true
unfolding same_bytes
same_bytes_refl [] = refl
same_bytes_refl (a ∷ xs) = ground (arith, same_bytes_refl xs)

pub same_bytes_sound : (xs ys : Bytes) → same_bytes xs ys ≡ true → xs ≡ ys
unfolding same_bytes
same_bytes_sound [] [] h = refl
same_bytes_sound [] (b ∷ ys) h = cc
same_bytes_sound (a ∷ xs) [] h = cc
same_bytes_sound (a ∷ xs) (b ∷ ys) h = ground (arith, same_bytes_sound xs ys)

pub same_bytes_differ : (xs ys : Bytes) → same_bytes xs ys ≡ false → xs ≢ ys
same_bytes_differ xs ys e p =
    clash (sym (same_bytes_refl ys) ∙ ap (λ x. same_bytes x ys) (sym p) ∙ e)
  where
    clash : true ≡ false → ⊥
    clash q = cc

pub load_eq :
    (off n : ℕ) (block : Bytes)
    → off + n ≤ length block
    → load off n block ≡ some (take n (drop off block))
unfolding load
load_eq off n block h = rw (le→leb _ _ h)

pub load_fault : (off n : ℕ) (block : Bytes) → length block < off + n → load off n block ≡ none
unfolding load
load_fault off n block h = rw (gt→leb _ _ h)

pub store_eq :
    (off : ℕ) (bytes block : Bytes)
    → off + length bytes ≤ length block
    → store off bytes block ≡ some (take off block ++ (bytes ++ drop (off + length bytes) block))
unfolding store
store_eq off bytes block h = rw (le→leb _ _ h)

pub store_fault :
    (off : ℕ) (bytes block : Bytes)
    → length block < off + length bytes
    → store off bytes block ≡ none
unfolding store
store_fault off bytes block h = rw (gt→leb _ _ h)

-- A field of a block that is laid out as a concatenation.
pub load-append :
    (off n : ℕ) (xs ys zs : Bytes)
    → off ≡ length xs
    → n ≡ length ys
    → load off n (xs ++ (ys ++ zs)) ≡ some ys
load-append off n xs ys zs ea eb =
    load_eq off n (xs ++ (ys ++ zs))
      (omega (arith, length-append {0} xs (ys ++ zs), length-append {0} ys zs))
    ∙ rw (drop-append_exact off xs (ys ++ zs) ea) (ap some (take-append_exact n ys zs eb))

-- The first field.
pub load_prefix : (n : ℕ) (ys zs : Bytes) → n ≡ length ys → load 0 n (ys ++ zs) ≡ some ys
load_prefix n ys zs e = load-append 0 n [] ys zs refl e

pub length-load :
    (off n : ℕ) (block : Bytes) {bytes : Bytes} → load off n block ≡ some bytes → length bytes ≡ n
unfolding load
length-load off n block h = ground (arith, length-take n (drop off block), length-drop off block)

-- Reading inside the first part of a block does not see what follows it.
pub load-append_le :
    (off n : ℕ) (xs ys : Bytes) → off + n ≤ length xs → load off n (xs ++ ys) ≡ load off n xs
load-append_le off n xs ys h =
    load_eq off n (xs ++ ys) (omega (arith, length-append {0} xs ys))
    ∙ rw
        (
          drop-append_le off xs ys (omega arith),
          take-append_le n (drop off xs) ys (omega (arith, length-drop {0} off xs)),
        )
        (sym (load_eq off n xs h))

pub length-store :
    (off : ℕ) (bytes block : Bytes) {block' : Bytes}
    → store off bytes block ≡ some block'
    → length block' ≡ length block
unfolding store
length-store off bytes block h = ground (
  arith,
  length-append (take off block) (bytes ++ drop (off + length bytes) block),
  length-append bytes (drop (off + length bytes) block),
  length-take off block,
  length-drop (off + length bytes) block,
)

load-cons : (off n b : ℕ) (block : Bytes) → load (suc off) n (b ∷ block) ≡ load off n block
unfolding load
load-cons off n b block = ground arith

-- Reading behind the first part of a block reads the rest.
pub load-skip :
    (k off n : ℕ) (xs ys : Bytes) → k ≡ length xs → load (k + off) n (xs ++ ys) ≡ load off n ys
load-skip k off n [] ys e = ap (λ o. load o n ys) (omega arith)
load-skip zero off n (x ∷ xs) ys e = absurd (omega arith)
load-skip (suc k) off n (x ∷ xs) ys e =
    ap (λ o. load o n (x ∷ (xs ++ ys))) (omega arith)
    ∙ load-cons (k + off) n x (xs ++ ys)
    ∙ load-skip k off n xs ys (omega arith)

-- The whole block.
pub load_all : (n : ℕ) (block : Bytes) → n ≡ length block → load 0 n block ≡ some block
load_all n block e = load_eq 0 n block (omega arith) ∙ ap some (take_all n block (omega arith))

-- Writing behind what is already laid out.
pub store_behind :
    (off : ℕ) (bytes done rest : Bytes)
    → off ≡ length done
    → length bytes ≤ length rest
    → store off bytes (done ++ rest) ≡ some (done ++ (bytes ++ drop (length bytes) rest))
store_behind off bytes done rest e h =
    store_eq off bytes (done ++ rest) (omega (arith, length-append {0} done rest))
    ∙ rw (take-append_exact off done rest e, drop_skip off (length bytes) done rest e)

-- Writing at the front.
pub store_front :
    (bytes block : Bytes)
    → length bytes ≤ length block
    → store 0 bytes block ≡ some (bytes ++ drop (length bytes) block)
store_front bytes block h = store_behind 0 bytes [] block refl h

pub load_bound :
    (off n : ℕ) (block : Bytes) {bytes : Bytes}
    → load off n block ≡ some bytes
    → off + n ≤ length block
unfolding load
load_bound off n block h = ground arith

-- What was read of a block is also read of the block with more behind it.
pub load-append_some :
    (off n : ℕ) (block more : Bytes) {bytes : Bytes}
    → load off n block ≡ some bytes
    → load off n (block ++ more) ≡ some bytes
load-append_some off n block more h = load-append_le off n block more (load_bound off n block h) ∙ h

-- Writing behind two and behind three parts.
pub store_behind_two :
    (off : ℕ) (bytes p q rest : Bytes)
    → off ≡ length p + length q
    → length bytes ≤ length rest
    → store off bytes (p ++ (q ++ rest)) ≡ some (p ++ (q ++ (bytes ++ drop (length bytes) rest)))
store_behind_two off bytes p q rest e h =
    ap (store off bytes) (sym (append_assoc p q rest))
    ∙ store_behind off bytes (p ++ q) rest (omega (arith, length-append {0} p q)) h
    ∙ ap some (append_assoc p q (bytes ++ drop (length bytes) rest))

pub store_behind_three :
    (off : ℕ) (bytes p q r rest : Bytes)
    → off ≡ length p + length q + length r
    → length bytes ≤ length rest
    → store off bytes (p ++ (q ++ (r ++ rest)))
      ≡ some (p ++ (q ++ (r ++ (bytes ++ drop (length bytes) rest))))
store_behind_three off bytes p q r rest e h =
    ap (store off bytes) (sym (append_assoc p q (r ++ rest)))
    ∙ store_behind_two off bytes (p ++ q) r rest (omega (arith, length-append {0} p q)) h
    ∙ ap some (append_assoc p q (r ++ (bytes ++ drop (length bytes) rest)))
