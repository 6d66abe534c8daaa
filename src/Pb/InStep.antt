-- ===== src/Pb/InStep.antt =====
-- bft-pb/main.cc: which batches a follower accepts.
use replication_protos.Prelude.{
  ==_sound, ==_differ, same_bytes_differ, ℕ, zero, suc, ◌+◌, ◌*◌, ◌%◌, ◌<◌, ◌≡◌, ◌⊎◌, inl, inr,
  refl, ap, sym, ◌∙◌, Bool-cases, some, List, [], ◌∷◌, ◌++◌, append-nil, append_assoc, arith, ◌==◌,
  Bytes, load, load_eq, load-append, same_bytes, same_bytes_sound, length, length-append, take,
  decode_le, u32_mod, All,
}
use replication_protos.Outcome.{ok, exited}
use replication_protos.Tlog.Format.{PMsg, p_msg_size, memcpy_into_p_msg, Fits}
use replication_protos.Tlog.Roundtrip.{memcpy_into_p_msg-concat, length-p_fields}
use replication_protos.Pb.Node.{
  AppContext, p_msg_bytes, other_state, followers_validation, validate_all,
}

-- The requests of a batch count up from `expected`, and carry the states of the followers.
abbrev pub InStep : ℕ → Bytes → Bytes → List PMsg → Type 0
InStep expected mine other [] = Unit
InStep expected mine other (m ∷ ms) =
    (m.meta.cnt ≡ expected)
    × (decode_le (take 4 m.output) ≡ expected)
    × (m.meta.f1_prev ≡ mine)
    × (m.meta.f2_prev ≡ other)
    × InStep ((expected + 1) % u32_mod) mine other ms

-- A context behind one accepted request, and behind `n` of them.
abbrev pub accepted : AppContext → AppContext
accepted ctx = record ctx {
  leader_exp_cnt = (ctx.leader_exp_cnt + 1) % u32_mod;
  metadata = record ctx.metadata { cmt_idx = (ctx.metadata.cmt_idx + 1) % u32_mod };
}

abbrev pub advanced : ℕ → AppContext → AppContext
advanced zero ctx = ctx
advanced (suc n) ctx = advanced n (accepted ctx)

-- The requests of a batch in memory.
abbrev pub batch_bytes : List PMsg → Bytes
batch_bytes [] = []
batch_bytes (m ∷ ms) = p_msg_bytes m ++ batch_bytes ms

-- A request as it can be in memory.
abbrev pub IsRequest : PMsg → Type 0
IsRequest m = Fits m × (m.meta.cnt < u32_mod)

pub length-batch_bytes :
    (ms : List PMsg) → All IsRequest ms → length (batch_bytes ms) ≡ length ms * p_msg_size
length-batch_bytes [] f = refl
length-batch_bytes (m ∷ ms) f = omega (
  arith,
  length-append {0} (p_msg_bytes m) (batch_bytes ms),
  length-p_fields m f.0.0,
  length-batch_bytes ms f.1,
)

read_request : (m : PMsg) → IsRequest m → memcpy_into_p_msg (p_msg_bytes m) ≡ some m
read_request m (f, small) =
    ap memcpy_into_p_msg (sym (append-nil (p_msg_bytes m)))
    ∙ memcpy_into_p_msg-concat m f []
    ∙ ap (λ n. some (record m { meta = record m.meta { cnt = n } })) same
  where
    same : m.meta.cnt % u32_mod ≡ m.meta.cnt
    same = omega (arith, small)

-- The answer to one request.
validation_cases :
    (m : PMsg) (ctx : AppContext)
    → Fits m
    → (((m.meta.cnt ≡ ctx.leader_exp_cnt)
          × (decode_le (take 4 m.output) ≡ ctx.leader_exp_cnt)
          × (m.meta.f1_prev ≡ ctx.metadata.my_last_state)
          × (m.meta.f2_prev ≡ other_state ctx))
        × (followers_validation m ctx ≡ ok (accepted ctx)))
      ⊎ (¬ (
            (m.meta.cnt ≡ ctx.leader_exp_cnt)
            × (decode_le (take 4 m.output) ≡ ctx.leader_exp_cnt)
            × (m.meta.f1_prev ≡ ctx.metadata.my_last_state)
            × (m.meta.f2_prev ≡ other_state ctx))
          × (followers_validation m ctx ≡ exited 128))
unfolding followers_validation
validation_cases m ctx f = elim (Bool-cases (m.meta.cnt == ctx.leader_exp_cnt)) [
  | inr n ↦ inr (λ a. ==_differ _ _ n a.0, rw (n))
  | inl c ↦ elim (Bool-cases (decode_le (take 4 m.output) == ctx.leader_exp_cnt)) [
    | inr n ↦ inr (λ a. ==_differ _ _ n a.1, rw (c, output_read, n))
    | inl o ↦ elim (Bool-cases (same_bytes m.meta.f1_prev ctx.metadata.my_last_state)) [
      | inr n ↦ inr (λ a. same_bytes_differ _ _ n a.2, rw (c, output_read, o, n))
      | inl p ↦ elim (Bool-cases (same_bytes m.meta.f2_prev (other_state ctx))) [
        | inr n ↦ inr (λ a. same_bytes_differ _ _ n a.3, rw (c, output_read, o, p, n))
        | inl q ↦ inl (
          (==_sound _ _ c, ==_sound _ _ o, same_bytes_sound _ _ p, same_bytes_sound _ _ q),
          rw (c, output_read, o, p, q),
        )
      ]
    ]
  ]
]
  where
    output_read : load 0 4 m.output ≡ some (take 4 m.output)
    output_read = load_eq 0 4 m.output (omega (arith, f.output_fits))

-- The answer to a batch, which lies at `offset`.
pub validate_all-InStep :
    (done more : Bytes) (ms : List PMsg) (offset : ℕ) (ctx : AppContext)
    → offset ≡ length done
    → All IsRequest ms
    → (InStep ctx.leader_exp_cnt ctx.metadata.my_last_state (other_state ctx) ms
        × (validate_all (length ms) offset (done ++ (batch_bytes ms ++ more)) ctx
            ≡ ok (advanced (length ms) ctx)))
      ⊎ (¬ (InStep ctx.leader_exp_cnt ctx.metadata.my_last_state (other_state ctx) ms)
          × (validate_all (length ms) offset (done ++ (batch_bytes ms ++ more)) ctx ≡ exited 128))
unfolding validate_all other_state
validate_all-InStep done more [] offset ctx e f = inl (tt, refl)
validate_all-InStep done more (m ∷ ms) offset ctx e f = elim (validation_cases m ctx f.0.0) [
  | inr (disagrees, stops) ↦
      inr (λ s. disagrees (s.0, s.1, s.2, s.3), rw (here, read_request m f.0, stops))
  | inl (agrees, passes) ↦
      elim (validate_all-InStep (done ++ p_msg_bytes m) more ms (offset + p_msg_size) (accepted ctx)
        next f.1) [
          | inl (s, run) ↦ inl (
            (agrees.0, agrees.1, agrees.2, agrees.3, s),
            rw (here, read_request m f.0, passes) (moved ∙ run),
          )
          | inr (disagrees, run) ↦
              inr (λ s. disagrees s.4, rw (here, read_request m f.0, passes) (moved ∙ run))
        ]
]
  where
    here :
        load offset p_msg_size (done ++ ((p_msg_bytes m ++ batch_bytes ms) ++ more))
        ≡ some (p_msg_bytes m)
    here =
        ap (λ b. load offset p_msg_size (done ++ b))
          (append_assoc (p_msg_bytes m) (batch_bytes ms) more)
        ∙ load-append offset p_msg_size done (p_msg_bytes m) (batch_bytes ms ++ more) e
            (sym (length-p_fields m f.0.0))

    next : offset + p_msg_size ≡ length (done ++ p_msg_bytes m)
    next = omega (arith, e, length-append {0} done (p_msg_bytes m), length-p_fields m f.0.0)

    moved :
        validate_all
          (length ms)
          (offset + p_msg_size)
          (done ++ ((p_msg_bytes m ++ batch_bytes ms) ++ more))
          (accepted ctx)
        ≡ validate_all
            (length ms)
            (offset + p_msg_size)
            ((done ++ p_msg_bytes m) ++ (batch_bytes ms ++ more))
            (accepted ctx)
    moved =
        ap (λ b. validate_all (length ms) (offset + p_msg_size) b (accepted ctx))
          (ap (◌++◌ done) (append_assoc (p_msg_bytes m) (batch_bytes ms) more)
            ∙ sym (append_assoc done (p_msg_bytes m) (batch_bytes ms ++ more)))
