-- ===== src/BftChain/Checks.antt =====
-- What the checks of an execution decide.
use replication_protos.Prelude.{
  ℕ, ◌+◌, ◌%◌, ◌<◌, ◌≡◌, ◌≢◌, ap, sym, ◌∙◌, Bool, true, false, not, Bool-cases, inl, inr, some,
  List, [], ◌∷◌, ◌++◌, arith, ◌==◌, if◌then◌else◌, ==_refl, Bytes, zeros, load, load-append,
  load_prefix, load-skip, load_fault, same_bytes, same_bytes_refl, same_bytes_sound, length,
  decode_le, u32_mod, minus_one,
}
use replication_protos.Outcome.{Outcome, ok, fault, access, access-fault, access-eq-ok, >>=-eq-ok}
use replication_protos.Attest.{Platform, verify_get_msg}
use replication_protos.Attest.Signed.{same_bytes_ne}
use replication_protos.Attest.Verified.{verify-append}
use replication_protos.Chain.Msg.{msg_size}
use replication_protos.BftChain.Proto.{
  State, Verdict, Diagnostic, leader_output, leader_index, check_leader, verify,
  verify_execution_tail, tail,
}

-- A message as the checks read it: request, output, index, and what follows.
abbrev pub action : Bytes → Bytes → Bytes → Bytes → Bytes
action request output word rest = request ++ (output ++ (word ++ rest))

-- The next index.
abbrev pub bump : State → State
bump st = record { cmt_idx = (st.cmt_idx + 1) % u32_mod }

module _ (request output word rest : Bytes) (st : State) (request_size : length request ≡ msg_size)
    (output_size : length output ≡ msg_size) (word_size : length word ≡ 4) where
  load_output : load msg_size msg_size (action request output word rest) ≡ some output
  load_output =
      load-append msg_size msg_size request output (word ++ rest) (sym request_size)
        (sym output_size)

  load_word : load (msg_size + msg_size) 4 (action request output word rest) ≡ some word
  load_word =
      load-skip msg_size msg_size 4 request (output ++ (word ++ rest)) (sym request_size)
      ∙ load-append msg_size 4 output word rest (sym output_size) (sym word_size)

  load_request : load 0 msg_size (action request output word rest) ≡ some request
  load_request = load_prefix msg_size request (output ++ (word ++ rest)) (sym request_size)

  -- `check_leader` on every branch: it accepts an output that equals the request under the next
  -- index and then counts; a different output leaves the state; a wrong index counts all the same.
  pub check_leader_cases :
      (request ≡ output
        → decode_le word ≡ (st.cmt_idx + 1) % u32_mod
        → check_leader (action request output word rest) st
          ≡ ok (record { holds = true; st = bump st; printed = [] }))
      × (request ≢ output
          → check_leader (action request output word rest) st
            ≡ ok (record { holds = false; st = st; printed = leader_output ∷ [] }))
      × (request ≡ output
          → decode_le word ≢ (st.cmt_idx + 1) % u32_mod
          → check_leader (action request output word rest) st
            ≡ ok (record { holds = false; st = bump st; printed = leader_index ∷ [] }))
  unfolding check_leader
  check_leader_cases = (
    (λ e w. rw (
      load_request,
      load_output,
      load_word,
      same request output e,
      w,
      ==_refl ((st.cmt_idx + 1) % u32_mod),
    )),
    (λ n. rw (load_request, load_output, same_bytes_ne request output n)),
    (λ e n. rw (
      load_request,
      load_output,
      load_word,
      same request output e,
      ==_ne ((st.cmt_idx + 1) % u32_mod) (decode_le word) (λ p. n (sym p)),
    )),
  )
    where
      same : (xs ys : Bytes) → xs ≡ ys → same_bytes xs ys ≡ true
      same xs ys e = rw e (same_bytes_refl ys)

      ==_ne : (a b : ℕ) → a ≢ b → (a == b) ≡ false
      ==_ne a b n = ground arith

refused :
    (st : State) (printed : List Diagnostic) (v : Verdict)
    → ok (record { holds = false; st = st; printed = printed }) ≡ ok v
    → v.holds ≡ true
    → ⊥
refused st printed v e h = ground arith

-- The last test of `check_leader`.
holds_only :
    (counted : Bool) (st : State) (v : Verdict)
    → if◌then◌else◌ {A = Outcome Verdict}
        (not counted)
        (ok (record { holds = false; st = bump st; printed = leader_index ∷ [] }))
        (ok (record { holds = true; st = bump st; printed = [] }))
      ≡ ok v
    → v.holds ≡ true
    → (counted ≡ true) × (v.st ≡ bump st) × (v.printed ≡ [])
holds_only counted st v e h = ground arith

agree : (a b : ℕ) → (a == b) ≡ true → a ≡ b
agree a b h = ground arith

-- If check_leader accepts a message, then its output equals its request, the index that it carries
-- is the counted-up index of the state, the state afterwards holds that index, and nothing is
-- printed.
pub check_leader_sound :
    (b : Bytes) (st : State) (v : Verdict)
    → check_leader b st ≡ ok v
    → v.holds ≡ true
    → (v.st ≡ bump st)
      × (v.printed ≡ [])
      × (load 0 msg_size b ≡ load msg_size msg_size b)
      × (word : Bytes) × (load (msg_size + msg_size) 4 b ≡ some word)
      × (decode_le word ≡ v.st.cmt_idx)
unfolding check_leader
check_leader_sound b st v e h =
    let (creq, a1, r1) = >>=-eq-ok (access (load 0 msg_size b)) _ e in
    let (output, a2, r2) = >>=-eq-ok (access (load msg_size msg_size b)) _ r1 in
    elim (Bool-cases (same_bytes creq output)) [
      | inr n ↦ absurd (refused st (leader_output ∷ []) v (rw n at r2) h)
      | inl m ↦
          let (word, a3, r3) = >>=-eq-ok (access (load (msg_size + msg_size) 4 b)) _ (rw m at r2) in
          let (counted, moved, quiet) =
            holds_only ((st.cmt_idx + 1) % u32_mod == decode_le word) st v r3 h in
          (
            moved,
            quiet,
            access-eq-ok _ a1 ∙ ap some (same_bytes_sound creq output m) ∙ sym (access-eq-ok _ a2),
            word,
            access-eq-ok _ a3,
            sym (agree _ (decode_le word) counted) ∙ sym (ap (λ s. s.cmt_idx) moved),
          )
    ]

-- A message that is shorter than two requests is read out of bounds.
pub check_leader_short : (b : Bytes) (st : State) → length b < 128 → check_leader b st ≡ fault
unfolding check_leader
check_leader_short b st h =
    access-fault (load 0 msg_size b) _ λ creq. rw (load_fault msg_size msg_size b h)

module _ (openssl : Bytes → Bytes → Bytes) (platform : Platform) where
  -- For a message that verifies, the answer of verify_execution_tail at the tail is the same
  -- whatever output the middle has appended to it.
  pub verify_execution_tail-append :
      (b out more : Bytes) (st : State) {r : ℕ × Bytes}
      → verify_get_msg openssl platform b ≡ some r
      → verify_execution_tail openssl platform (b ++ out) tail st
        ≡ verify_execution_tail openssl platform (b ++ more) tail st
  unfolding verify_execution_tail verify
  verify_execution_tail-append b out more st e =
      rw (verify-append openssl platform b out e, verify-append openssl platform b more e)

  -- If the inner message does not verify, verify_execution_tail at the tail does not reject it but
  -- faults.
  pub verify_execution_tail_forged :
      (b : Bytes) (st : State)
      → verify_get_msg openssl platform b ≡ some (minus_one, zeros 1)
      → verify_execution_tail openssl platform b tail st ≡ fault
  unfolding verify_execution_tail verify
  verify_execution_tail_forged b st e = rw (e, check_leader_short (zeros 1) st (omega arith))
