-- ===== src/Net/Journal.antt =====
-- network_bench/authenticators/apis.h: the file of attestations.
use replication_protos.Prelude.{
  ℕ, zero, suc, ◌-◌, ◌^◌, ltb, true, ◌≤◌, ◌<◌, ◌≡◌, refl, ap, ap₂, ◌∙◌, List, [], ◌∷◌, ◌++◌,
  append_assoc, arith, Bytes, load_eq, load_fault, length, take, length-take, take_all, le→leb,
}
use replication_protos.Net.Socket.{done, fault, or_fault}
use replication_protos.Net.Auth.{Written, written, write_failed, log_from, log_attestation}

-- One answer of `write`.
log_from-written :
    (left k : ℕ) (block file : Bytes) (ws : List Written)
    → 0 < left
    → k ≤ left
    → left ≤ length block
    → log_from left block file (written k ∷ ws)
      ≡ log_from (left - k) block (file ++ take k (take left block)) ws
unfolding log_from or_fault
log_from-written zero k block file ws some_left h inside = absurd (omega arith)
log_from-written (suc left) k block file ws some_left h inside =
    rw (load_eq 0 (suc left) block (omega (arith, inside)), le→leb k (suc left) h) refl

log_from_end : (block file : Bytes) (ws : List Written) → log_from 0 block file ws ≡ done file ws
unfolding log_from
log_from_end block file [] = refl
log_from_end block file (w ∷ ws) = refl

log_from-failed :
    (left : ℕ) (block file : Bytes) (ws : List Written)
    → 0 < left
    → left ≤ length block
    → log_from left block file (write_failed ∷ ws) ≡ log_from (suc left) block file ws
unfolding log_from or_fault
log_from-failed zero block file ws h inside = absurd (omega arith)
log_from-failed (suc left) block file ws h inside =
    rw (load_eq 0 (suc left) block (omega (arith, inside))) refl

log_from_beyond :
    (left : ℕ) (block file : Bytes) (w : Written) (ws : List Written)
    → length block ≤ left
    → log_from (suc left) block file (w ∷ ws) ≡ fault
unfolding log_from or_fault
log_from_beyond left block file (written k) ws h =
    rw (load_fault 0 (suc left) block (omega (arith, h))) refl
log_from_beyond left block file write_failed ws h =
    rw (load_fault 0 (suc left) block (omega (arith, h))) refl

log_attestation_lem :
    (block file : Bytes) (ws : List Written)
    → length block < 2 ^ 31
    → log_attestation (length block) block file ws ≡ log_from (length block) block file ws
unfolding log_attestation
log_attestation_lem block file ws h = rw small refl
  where
    small : ltb (length block) (2 ^ 31) ≡ true
    small = ground (arith, h)

-- A write of all bytes appends the reply.
pub log_attestation_whole :
    (block file : Bytes) (ws : List Written)
    → 0 < length block
    → length block < 2 ^ 31
    → log_attestation (length block) block file (written (length block) ∷ ws)
      ≡ done (file ++ block) ws
log_attestation_whole block file ws h small =
    log_attestation_lem block file (written (length block) ∷ ws) small
    ∙ log_from-written (length block) (length block) block file ws h (omega arith) (omega arith)
    ∙ ap (λ n. log_from n block (file ++ take (length block) (take (length block) block)) ws)
        zero_left
    ∙ log_from_end block (file ++ take (length block) (take (length block) block)) ws
    ∙ ap (λ b. done (file ++ b) ws)
        (ap (take (length block)) (take_all (length block) block (omega arith))
          ∙ take_all (length block) block (omega arith))
  where
    zero_left : length block - length block ≡ 0
    zero_left = omega arith

-- After a short write the file has the start of the reply twice, and not its end.
pub log_attestation_short :
    (k : ℕ) (block file : Bytes) (ws : List Written)
    → k < length block
    → length block < 2 ^ 31
    → log_attestation (length block) block file (written k ∷ written (length block - k) ∷ ws)
      ≡ done (file ++ (take k block ++ take (length block - k) block)) ws
log_attestation_short k block file ws h small =
    log_attestation_lem block file (written k ∷ written (n - k) ∷ ws) small
    ∙ log_from-written n k block file (written (n - k) ∷ ws) (omega (arith, h)) (omega (arith, h))
        (omega arith)
    ∙ log_from-written (n - k) (n - k) block (file ++ take k (take n block)) ws (omega (arith, h))
        (omega arith) (omega arith)
    ∙ ap
        (λ m.
          log_from m block ((file ++ take k (take n block)) ++ take (n - k) (take (n - k) block))
            ws)
        zero_left
    ∙ log_from_end block ((file ++ take k (take n block)) ++ take (n - k) (take (n - k) block)) ws
    ∙ ap (λ b. done b ws) joined
  where
    n : ℕ
    n = length block

    zero_left : n - k - (n - k) ≡ 0
    zero_left = omega arith

    joined :
        (file ++ take k (take n block)) ++ take (n - k) (take (n - k) block)
        ≡ file ++ (take k block ++ take (n - k) block)
    joined =
        append_assoc file (take k (take n block)) (take (n - k) (take (n - k) block))
        ∙ ap₂ (λ a b. file ++ (a ++ b)) (ap (take k) (take_all n block (omega arith)))
            (take_all (n - k) (take (n - k) block) (omega (arith, length-take (n - k) block)))

-- After a failed write it reads beyond the reply.
pub log_attestation_failed :
    (block file : Bytes) (w : Written) (ws : List Written)
    → 0 < length block
    → length block < 2 ^ 31
    → log_attestation (length block) block file (write_failed ∷ w ∷ ws) ≡ fault
log_attestation_failed block file w ws h small =
    log_attestation_lem block file (write_failed ∷ w ∷ ws) small
    ∙ log_from-failed (length block) block file (w ∷ ws) h (omega arith)
    ∙ log_from_beyond (length block) block file w ws (omega arith)
