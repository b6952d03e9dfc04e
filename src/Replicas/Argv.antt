-- ===== src/Replicas/Argv.antt =====
-- The numbers that `forkReplicas` writes into the arguments with %d: the digits are all there.
use s3res.Prelude.{
  ℕ, zero, suc, ◌+◌, ◌*◌, ◌/◌, ◌%◌, ◌<◌, ◌≡◌, ap, ◌∙◌, inl, inr, true, List, [], ◌∷◌, lt-cases,
  arith,
}
use s3res.Prelude.Int.{pos}
use s3res.Prelude.Text.{digits_before, decimal}
use s3res.VoterM.Recover.Argv.{digits, is_digit}

digit_lem :
    (acc d : ℕ) (text : List ℕ) → d < 10 → digits acc ((48 + d) ∷ text) ≡ digits (acc * 10 + d) text
unfolding digits
digit_lem acc d text h =
    let yes : is_digit (48 + d) ≡ true = ground arith in
    rw yes (ap (λ k. digits (acc * 10 + k) text) (omega arith))

-- The bound on the number of digits is enough, and they read back as the number.
digits-digits_before :
    (fuel n : ℕ) (text : List ℕ) → n < fuel → digits 0 (digits_before fuel n text) ≡ digits n text
unfolding digits_before
digits-digits_before zero n text h = absurd (omega arith)
digits-digits_before (suc fuel) n text h = elim (lt-cases n 10) [
  | inl (small, below) ↦ rw small (digit_lem 0 n text below ∙ ap (λ k. digits k text) (omega arith))
  | inr (large, above) ↦ rw large (
      digits-digits_before fuel (n / 10) ((48 + n % 10) ∷ text) (omega arith)
      ∙ digit_lem (n / 10) (n % 10) text (omega arith)
      ∙ ap (λ k. digits k text) (omega arith))
]

digits-decimal : (n : ℕ) → digits 0 (decimal (pos n)) ≡ n
unfolding decimal digits
digits-decimal n = digits-digits_before (suc n) n [] (omega arith)
