-- ===== src/VoterM/Vote/Scan.antt =====
-- A loop over the pipes that raises a flag: it stays down exactly when every pipe passes.
use s3res.Prelude.{
  ℕ, ◌+◌, ◌<◌, ◌≤◌, ◌≡◌, refl, sym, subst, ap, ◌∙◌, ◌⊎◌, inl, inr, true, false, arith, for_range,
  for_range_inv, lt-cases,
}
use s3res.VoterM.Vote.{Verdict}

-- A round that either passes a pipe and changes nothing, or fails it and raises the flag.
abbrev pub Round : (ℕ → Type 0) → ℕ → (ℕ → Verdict → Verdict) → Type 0
Round Pass n body =
    (p : ℕ) (s : Verdict)
    → p < n
    → (Pass p × (body p s ≡ s)) ⊎ ((¬ (Pass p)) × ((body p s).0 ≡ true))

module _ (Pass : ℕ → Type 0) (n : ℕ) (body : ℕ → Verdict → Verdict)
    (round : Round Pass n body) where
  Passed : ℕ → Verdict → Type 0
  Passed k s = s.0 ≡ false → (p : ℕ) → p < k → Pass p

  keep : (k : ℕ) (s : Verdict) → 0 ≤ k → k < n → Passed k s → Passed (k + 1) (body k s)
  unfolding Passed
  keep k s _ h before down p below = elim (round k s h) [
    | inl (pass, same) ↦ elim (lt-cases p k) [
      | inl (_, earlier) ↦ before (ap (λ (t : Verdict). t.0) (sym same) ∙ down) p earlier
      | inr (_, later) ↦ let e : k ≡ p = omega arith in subst Pass e pass
    ]
    | inr (_, up) ↦ absurd (cc (up, down))
  ]

  pub flag_down : (i : ℕ) → (for_range n 0 body (false, i)).0 ≡ false → (p : ℕ) → p < n → Pass p
  unfolding Passed
  flag_down i =
      for_range_inv Passed body n 0 n (false, i) (omega arith) keep (λ _ p h. absurd (omega arith))

  pub all_pass : (s : Verdict) → ((p : ℕ) → p < n → Pass p) → for_range n 0 body s ≡ s
  all_pass s all =
      for_range_inv (λ _ t. t ≡ s) body n 0 n s (omega arith)
        (λ k t _ h e. elim (round k t h) [
          | inl (_, same) ↦ same ∙ e
          | inr (fail, _) ↦ absurd (fail (all k h))
        ])
        refl
