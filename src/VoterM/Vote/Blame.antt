-- ===== src/VoterM/Vote/Blame.antt =====
-- Whom the vote blames: with three replicas of which two agree, nobody but the third.
use s3res.Prelude.{
  ℕ, zero, suc, ◌<◌, ◌≡◌, ◌≢◌, inl, inr, true, false, List, arith, Bool-cases, for_range,
  for_range_inv,
}
use s3res.VoterM.State.{ReplicaR}
use s3res.VoterM.Vote.{Verdict, tmr_count_round, tmr_content_round, tmr_verdict}
use s3res.VoterM.Vote.Agree.{Agree, CountsFit, Agree-contents_differ, contents_differ_congr}
use s3res.VoterM.Vote.Detect.{SameCounts, counts_pass}

-- All replicas but `f` agree on pipe `p`.
abbrev pub OthersAgree : List ReplicaR → ℕ → ℕ → Type 0
OthersAgree reps f p = (r s : ℕ) → r < 3 → s < 3 → r ≢ f → s ≢ f → Agree reps r s p

-- If there is an alarm, `f` is blamed.
abbrev pub Blames : ℕ → Verdict → Type 0
Blames f s = s.0 ≡ true → s.1 ≡ f

-- The pair that agrees, for each place of the third.
abbrev PairAgrees : List ReplicaR → ℕ → ℕ → Type 0
PairAgrees reps zero p = Agree reps 1 2 p
PairAgrees reps (suc zero) p = Agree reps 0 2 p
PairAgrees reps (suc (suc f)) p = Agree reps 0 1 p

pair_agrees : (reps : List ReplicaR) (f p : ℕ) → f < 3 → OthersAgree reps f p → PairAgrees reps f p
pair_agrees reps zero p h agree = agree 1 2 (omega arith) (omega arith) (omega arith) (omega arith)
pair_agrees reps (suc zero) p h agree =
    agree 0 2 (omega arith) (omega arith) (omega arith) (omega arith)
pair_agrees reps (suc (suc f)) p h agree =
    agree 0 1 (omega arith) (omega arith) (omega arith) (omega arith)

count_round-Blames :
    (reps : List ReplicaR) (f p : ℕ) (s : Verdict)
    → f < 3
    → PairAgrees reps f p
    → Blames f s
    → Blames f (tmr_count_round reps p s)
unfolding tmr_count_round
count_round-Blames reps zero p s h a b = ground arith
count_round-Blames reps (suc zero) p s h a b = ground arith
count_round-Blames reps (suc (suc f)) p s h a b = ground arith

-- The contents are compared only where the counts are equal.
content_round-Blames :
    (reps : List ReplicaR) (f p : ℕ) (s : Verdict)
    → f < 3
    → CountsFit reps 3
    → SameCounts reps p
    → PairAgrees reps f p
    → Blames f s
    → Blames f (tmr_content_round reps p s)
unfolding tmr_content_round
content_round-Blames reps zero p s h fit counts a b =
    ground (arith, contents_differ_congr reps 1 2 p counts.0 a)
content_round-Blames reps (suc zero) p s h fit counts a b =
    ground (arith, Agree-contents_differ reps 3 2 p fit (omega arith) (omega arith) counts.1 a.1)
content_round-Blames reps (suc (suc f)) p s h fit counts a b =
    ground (arith, Agree-contents_differ reps 3 1 p fit (omega arith) (omega arith) counts.0 a.1)

-- With three replicas whose reads all succeeded, of which all but `f` agree on every output pipe, an
-- alarm of the vote blames `f`.
pub tmr_verdict-Blames :
    (reps : List ReplicaR) (f n i : ℕ)
    → f < 3
    → CountsFit reps 3
    → ((p : ℕ) → p < n → OthersAgree reps f p)
    → Blames f (tmr_verdict reps n i)
unfolding tmr_verdict
tmr_verdict-Blames reps f n i h fit agree = elim (Bool-cases first.0) [
  | inl up ↦ rw up (λ _. counts_ok up)
  | inr down ↦ simp down (contents_ok down)
]
  where
    first : Verdict
    first = for_range n 0 (tmr_count_round reps) (false, i)

    pair : (p : ℕ) → p < n → PairAgrees reps f p
    pair p below = pair_agrees reps f p h (agree p below)

    counts_ok : Blames f first
    counts_ok =
        for_range_inv (λ _. Blames f) (tmr_count_round reps) n 0 n (false, i) (omega arith)
          (λ k s _ below b. count_round-Blames reps f k s h (pair k below) b) (λ e. cc)

    contents_ok : first.0 ≡ false → Blames f (for_range n 0 (tmr_content_round reps) first)
    contents_ok down =
        for_range_inv (λ _. Blames f) (tmr_content_round reps) n 0 n first (omega arith)
          (λ k s _ below b.
            content_round-Blames reps f k s h fit (counts_pass reps n i fit down k below)
              (pair k below) b)
          counts_ok
