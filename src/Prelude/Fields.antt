-- ===== src/Prelude/Fields.antt =====
-- Blocks that are read and written field by field, with an offset that advances by each field's size.
use Prim.Native.Nat.{ℕ, zero, suc, ◌+◌, ◌-◌, ◌≤◌}
use mathlib.Core.Path.{◌≡◌, refl, ap, ap₂, sym, ◌∙◌}
use mathlib.Core.Option.{Option, some}
use mathlib.Core.List.{List, [], ◌∷◌, ◌++◌, append-nil, append_assoc}
use native.Mathlib.Omega.{arith}
use replication_protos.Prelude.Tests.{some_injective, ◌>>=◌}
use replication_protos.Prelude.Lists.{
  length, take, take_all, drop, drop_all, length-append, length-drop,
}
use replication_protos.Prelude.Memory.{
  Bytes, load, store, load_eq, load_bound, length-load, load-append, store_behind,
}

abbrev pub concat : List Bytes → Bytes
concat [] = []
concat (f ∷ fs) = f ++ concat fs

abbrev pub sum : List ℕ → ℕ
sum [] = 0
sum (n ∷ ns) = n + sum ns

-- `memcpy(block + offset, field, sizeof(field)); offset += sizeof(field);` for each field.
unfoldable pub store_fields : ℕ → List Bytes → Bytes → Option Bytes
store_fields off [] block = some block
store_fields off (f ∷ fs) block = do
  block' ← store off f block
  store_fields (off + length f) fs block'

-- `memcpy(field, block + offset, n); offset += n;` for each size.
unfoldable pub load_fields : ℕ → List ℕ → Bytes → Option (List Bytes)
load_fields off [] block = some []
load_fields off (n ∷ ns) block = do
  f ← load off n block
  fs ← load_fields (off + n) ns block
  some (f ∷ fs)

-- `memcpy(to + offset, from + src + offset, n); offset += n;` for each size.
unfoldable pub copy_fields : ℕ → ℕ → List ℕ → Bytes → Bytes → Option Bytes
copy_fields src off [] from to = some to
copy_fields src off (n ∷ ns) from to = do
  f ← load (src + off) n from
  to' ← store off f to
  copy_fields src (off + n) ns from to'

abbrev pub sizes : List Bytes → List ℕ
sizes [] = []
sizes (f ∷ fs) = length f ∷ sizes fs

pub length-concat : (fs : List Bytes) → length (concat fs) ≡ sum (sizes fs)
length-concat [] = refl
length-concat (f ∷ fs) = omega (arith, length-append {0} f (concat fs), length-concat fs)

pub drop-drop : (m n : ℕ) (xs : Bytes) → drop n (drop m xs) ≡ drop (m + n) xs
drop-drop zero n xs = ap (λ k. drop k xs) zero_add
  where
    zero_add : n ≡ zero + n
    zero_add = omega arith
drop-drop (suc m) n [] = drop_all n [] (omega arith) ∙ sym (drop_all (suc m + n) [] (omega arith))
drop-drop (suc m) n (x ∷ xs) = drop-drop m n xs ∙ ap (λ k. drop k (x ∷ xs)) suc_add
  where
    suc_add : suc (m + n) ≡ suc m + n
    suc_add = omega arith

pub take-take_add : (m n : ℕ) (xs : Bytes) → take m (take (m + n) xs) ≡ take m xs
take-take_add zero n xs = refl
take-take_add (suc m) n [] = ap (take (suc m)) (take_all (suc m + n) [] (omega arith))
take-take_add (suc m) n (x ∷ xs) =
    ap (λ k. take (suc m) (take k (x ∷ xs))) suc_add ∙ ap (◌∷◌ x) (take-take_add m n xs)
  where
    suc_add : suc m + n ≡ suc (m + n)
    suc_add = omega arith

pub drop-take_add : (m n : ℕ) (xs : Bytes) → drop m (take (m + n) xs) ≡ take n (drop m xs)
drop-take_add zero n xs = ap (λ k. take k xs) zero_add
  where
    zero_add : zero + n ≡ n
    zero_add = omega arith
drop-take_add (suc m) n [] =
    ap (drop (suc m)) (take_all (suc m + n) [] (omega arith)) ∙ sym (take_all n [] (omega arith))
drop-take_add (suc m) n (x ∷ xs) =
    ap (λ k. drop (suc m) (take k (x ∷ xs))) suc_add ∙ drop-take_add m n xs
  where
    suc_add : suc m + n ≡ suc (m + n)
    suc_add = omega arith

take-append-drop : (n : ℕ) (xs : Bytes) → take n xs ++ drop n xs ≡ xs
take-append-drop zero xs = refl
take-append-drop (suc n) [] = refl
take-append-drop (suc n) (x ∷ xs) = ap (◌∷◌ x) (take-append-drop n xs)

-- A read cut in two.
pub load_split :
    (off m n : ℕ) (block : Bytes) {whole : Bytes}
    → load off (m + n) block ≡ some whole
    → (load off m block ≡ some (take m whole)) × (load (off + m) n block ≡ some (drop m whole))
load_split off m n block {whole} h =
    let inside = load_bound off (m + n) block h in
    let whole_eq = some_injective (sym (load_eq off (m + n) block inside) ∙ h) in
    (
      load_eq off m block (omega (arith, inside))
          ∙ ap some (sym (take-take_add m n (drop off block)) ∙ ap (take m) whole_eq),
      load_eq (off + m) n block (omega (arith, inside))
          ∙ ap some (
              ap (take n) (sym (drop-drop off m block))
              ∙ sym (drop-take_add m n (drop off block))
              ∙ ap (drop m) whole_eq),
    )

-- Reading inside a part that was read.
pub load_inside :
    (pos m off n : ℕ) (block : Bytes) {whole : Bytes}
    → load pos m block ≡ some whole
    → off + n ≤ m
    → load (pos + off) n block ≡ load off n whole
load_inside pos m off n block {whole} h inside =
    let (_, back) = load_split pos off (m - off) block (ap (λ k. load pos k block) to_back ∙ h) in
    let (middle, _) =
      load_split (pos + off) n (m - off - n) block
        (ap (λ k. load (pos + off) k block) to_middle ∙ back) in
    middle ∙ sym (load_eq off n whole (omega (arith, length-load pos m block h)))
  where
    to_back : off + (m - off) ≡ m
    to_back = omega (arith, inside)

    to_middle : n + (m - off - n) ≡ m - off
    to_middle = omega (arith, inside)

pub store_fields-behind :
    (fs : List Bytes) (off : ℕ) (done rest : Bytes)
    → off ≡ length done
    → length (concat fs) ≤ length rest
    → store_fields off fs (done ++ rest)
      ≡ some (done ++ (concat fs ++ drop (length (concat fs)) rest))
unfolding store_fields
store_fields-behind [] off done rest e h = refl
store_fields-behind (f ∷ fs) off done rest e h =
    ap (λ o. o >>= store_fields (off + length f) fs)
      (store_behind off f done rest e (omega (arith, size)))
    ∙ ap (store_fields (off + length f) fs) (sym (append_assoc done f (drop (length f) rest)))
    ∙ store_fields-behind fs (off + length f) (done ++ f) (drop (length f) rest)
        (omega (arith, length-append {0} done f))
        (omega (arith, size, length-drop {0} (length f) rest))
    ∙ rw (drop-drop (length f) (length (concat fs)) rest, size)
        (ap some (
          append_assoc done f (concat fs ++ drop (length f + length (concat fs)) rest)
          ∙ ap (◌++◌ done)
              (sym (append_assoc f (concat fs) (drop (length f + length (concat fs)) rest)))))
  where
    size : length (f ++ concat fs) ≡ length f + length (concat fs)
    size = length-append f (concat fs)

-- A record's fields written over a block that is as large as they are.
pub store_fields_all :
    (fs : List Bytes) (block : Bytes)
    → length block ≡ length (concat fs)
    → store_fields 0 fs block ≡ some (concat fs)
store_fields_all fs block e =
    store_fields-behind fs 0 [] block refl (omega (arith, e))
    ∙ rw (drop_all (length (concat fs)) block (omega (arith, e))) (ap some (append-nil (concat fs)))

-- The fields of a block that starts with them.
pub load_fields-concat :
    (fs : List Bytes) (off : ℕ) (done more : Bytes)
    → off ≡ length done
    → load_fields off (sizes fs) (done ++ (concat fs ++ more)) ≡ some fs
unfolding load_fields
load_fields-concat [] off done more e = refl
load_fields-concat (f ∷ fs) off done more e = rw (
  append_assoc f (concat fs) more,
  load-append off (length f) done f (concat fs ++ more) e refl,
  sym (append_assoc done f (concat fs ++ more)),
  load_fields-concat fs (off + length f) (done ++ f) more (omega (arith, length-append {0} done f)),
)

concat-append : (fs gs : List Bytes) → concat (fs ++ gs) ≡ concat fs ++ concat gs
concat-append [] gs = refl
concat-append (f ∷ fs) gs =
    ap (◌++◌ f) (concat-append fs gs) ∙ sym (append_assoc f (concat fs) (concat gs))

-- One field.
pub load-concat :
    (before : List Bytes) (f : Bytes) (after : List Bytes) (off n : ℕ) (more : Bytes)
    → off ≡ length (concat before)
    → n ≡ length f
    → load off n (concat (before ++ (f ∷ after)) ++ more) ≡ some f
load-concat before f after off n more e k =
    ap (load off n) (
      ap (λ b. b ++ more) (concat-append before (f ∷ after))
      ∙ append_assoc (concat before) (f ++ concat after) more
      ∙ ap (◌++◌ (concat before)) (append_assoc f (concat after) more))
    ∙ load-append off n (concat before) f (concat after ++ more) e k

-- Copying field by field copies the bytes from the first field to the last.
pub copy_fields_lem :
    (ns : List ℕ) (src off : ℕ) (from done rest : Bytes) {whole : Bytes}
    → off ≡ length done
    → load (src + off) (sum ns) from ≡ some whole
    → sum ns ≤ length rest
    → copy_fields src off ns from (done ++ rest) ≡ some (done ++ (whole ++ drop (sum ns) rest))
unfolding copy_fields
copy_fields_lem [] src off from done rest {whole} e h k =
    ap (λ w. some (done ++ (w ++ rest))) (sym nothing)
  where
    nothing : whole ≡ []
    nothing = some_injective (sym h ∙ load_eq (src + off) 0 from (load_bound (src + off) 0 from h))
copy_fields_lem (n ∷ ns) src off from done rest {whole} e h k =
    let (here, later) = load_split (src + off) n (sum ns) from h in
    rw here (
      ap (λ o. o >>= copy_fields src (off + n) ns from)
        (store_behind off (take n whole) done rest e (omega (arith, size n here)))
      ∙ ap (copy_fields src (off + n) ns from)
          (sym (append_assoc done (take n whole) (drop (length (take n whole)) rest)))
      ∙ copy_fields_lem ns src (off + n) from (done ++ take n whole)
          (drop (length (take n whole)) rest)
          (omega (arith, size n here, length-append {0} done (take n whole)))
          (ap (λ o. load o (sum ns) from) add_assoc ∙ later)
          (omega (arith, size n here, length-drop {0} (length (take n whole)) rest))
      ∙ ap some (
          append_assoc done (take n whole) _
          ∙ ap (◌++◌ done) (
              sym (append_assoc (take n whole) (drop n whole) _)
              ∙ ap₂ ◌++◌ (take-append-drop n whole) (
                  ap (λ j. drop (sum ns) (drop j rest)) (size n here)
                  ∙ drop-drop n (sum ns) rest))))
  where
    size : (k : ℕ) → load (src + off) k from ≡ some (take n whole) → length (take n whole) ≡ k
    size k p = length-load (src + off) k from p

    add_assoc : src + (off + n) ≡ src + off + n
    add_assoc = omega arith
