-- ===== src/VoterM/Vote/Agree.antt =====
-- When two replicas answer alike, and what the comparisons of `checkSDC` see of it.
use s3res.Prelude.{ℕ, ◌≤◌, ◌<◌, ◌≡◌, refl, sym, ap, ◌∙◌, false, List, arith, length, take}
use s3res.Sys.{MemCmp, same, below, above, differs}
use s3res.Sys.Memcmp.{memcmp_sound, memcmp_complete, memcmp_congr}
use s3res.VoterM.State.{ReplicaR, count_at, buffer_at}
use s3res.VoterM.Vote.{contents_differ}

-- what replica `r` would send on pipe `p`
abbrev pub output : List ReplicaR → ℕ → ℕ → List ℕ
output reps r p = take (count_at reps r p) (buffer_at reps r p)

abbrev pub Agree : List ReplicaR → ℕ → ℕ → ℕ → Type 0
Agree reps r s p = (count_at reps r p ≡ count_at reps s p) × (output reps r p ≡ output reps s p)

-- The bytes that a count speaks of are there: no read() of the replica failed.
abbrev pub CountsFit : List ReplicaR → ℕ → Type 0
CountsFit reps n = (r p : ℕ) → r < n → count_at reps r p ≤ length (buffer_at reps r p)

differs-same : (m : MemCmp) → differs m ≡ false → m ≡ same
differs-same same h = refl
differs-same below h = cc
differs-same above h = cc

module _ (reps : List ReplicaR) (n s p : ℕ) (fit : CountsFit reps n) (first : 0 < n)
    (in_range : s < n) (counts : count_at reps 0 p ≡ count_at reps s p) where
  pub contents_differ-Agree : contents_differ reps 0 s p ≡ false → Agree reps 0 s p
  contents_differ-Agree h = (
    counts,
    memcmp_sound (count_at reps 0 p) (buffer_at reps 0 p) (buffer_at reps s p) (fit 0 p first)
          (omega (arith, fit s p in_range)) (differs-same _ h)
        ∙ ap (λ k. take k (buffer_at reps s p)) counts,
  )

  pub Agree-contents_differ : output reps 0 p ≡ output reps s p → contents_differ reps 0 s p ≡ false
  Agree-contents_differ h = ap differs (
      memcmp_complete (count_at reps 0 p) (buffer_at reps 0 p) (buffer_at reps s p) (fit 0 p first)
        (omega (arith, fit s p in_range)) (h ∙ ap (λ k. take k (buffer_at reps s p)) (sym counts)))

-- Two replicas that agree compare alike with the first.
pub contents_differ_congr :
    (reps : List ReplicaR) (r s p : ℕ)
    → count_at reps 0 p ≡ count_at reps r p
    → Agree reps r s p
    → contents_differ reps 0 r p ≡ contents_differ reps 0 s p
contents_differ_congr reps r s p e (counts, bytes) = ap differs (
    memcmp_congr (count_at reps 0 p) (buffer_at reps 0 p) (buffer_at reps r p) (buffer_at reps s p)
      (ap (λ k. take k (buffer_at reps r p)) e
        ∙ bytes
        ∙ ap (λ k. take k (buffer_at reps s p)) (sym (e ∙ counts))))
