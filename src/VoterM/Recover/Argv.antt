-- ===== src/VoterM/Recover/Argv.antt =====
-- The numbers that `forkReplicas` writes into a replica's arguments, read back by atoi().
use s3res.Prelude.{
  ℕ, zero, suc, ◌+◌, ◌-◌, ◌*◌, ◌/◌, ◌%◌, ◌<◌, ◌≡◌, refl, Bool, List, [], ◌∷◌, ◌&&◌, ltb, ◌==◌,
  if◌then◌else◌, arith,
}
use s3res.Prelude.Int.{ℤ, pos, negsuc}
use s3res.VoterM.Recover.{priority_arg, pipe_count_arg}

abbrev pub is_digit : ℕ → Bool
is_digit c = ltb 47 c && ltb c 58

unfoldable pub digits : ℕ → List ℕ → ℕ
digits acc [] = acc
digits acc (c ∷ cs) = let more = digits (acc * 10 + (c - 48)) cs in if is_digit c then more else acc

abbrev negated : ℕ → ℤ
negated zero = pos 0
negated (suc n) = negsuc n

-- atoi() on a text that starts with no blank: a sign, then digits up to the first other byte.
pub atoi : List ℕ → ℤ
atoi [] = pos 0
atoi (c ∷ cs) =
    if c == 45
    then negated (digits 0 cs)
    else if c == 43
    then pos (digits 0 cs)
    else pos (digits 0 (c ∷ cs))

digits_two : (n : ℕ) → n < 100 → digits 0 ((48 + n / 10) ∷ (48 + n % 10) ∷ []) ≡ n
unfolding digits
digits_two n h = ground arith

-- A priority of no more than two digits that is not negative, and a number of pipes of no more than
-- two digits, read back as they were.
pub atoi-priority_arg :
    (n : ℕ) → n < 100 → (atoi (priority_arg (pos n)) ≡ pos n) × (atoi (pipe_count_arg n) ≡ pos n)
unfolding atoi digits priority_arg pipe_count_arg
atoi-priority_arg zero h = (refl, refl)
atoi-priority_arg (suc n) h =
    (ground (arith, digits_two (suc n) h), ground (arith, digits_two (suc n) h))

-- Every negative priority reads back as 0.
pub atoi-priority_arg_negative : (n : ℕ) → atoi (priority_arg (negsuc n)) ≡ pos 0
unfolding atoi digits priority_arg
atoi-priority_arg_negative n = ground arith
