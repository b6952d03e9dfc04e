-- ===== src/VoterM/Vote/Detect.antt =====
-- What the vote detects: exactly the disagreements.
use s3res.Prelude.{
  ℕ, ◌<◌, ◌≡◌, sym, ap, ◌∙◌, inl, inr, ◌↔◌, false, List, arith, ◌==◌, ==_iff, Bool-cases, for_range,
}
use s3res.VoterM.State.{ReplicaR, count_at}
use s3res.VoterM.Vote.{
  Verdict, contents_differ, dmr_round, tmr_count_round, tmr_content_round, dmr_verdict, tmr_verdict,
}
use s3res.VoterM.Vote.Agree.{output, Agree, CountsFit, contents_differ-Agree, Agree-contents_differ}
use s3res.VoterM.Vote.Scan.{Round, flag_down, all_pass}

dmr_round-Round :
    (reps : List ReplicaR) (n : ℕ) → CountsFit reps 2 → Round (Agree reps 0 1) n (dmr_round reps)
unfolding dmr_round
dmr_round-Round reps n fit p s h = elim (Bool-cases (count_at reps 0 p == count_at reps 1 p)) [
  | inl e ↦
      let q = (==_iff (count_at reps 0 p) (count_at reps 1 p)).0 e in
      elim (Bool-cases (contents_differ reps 0 1 p)) [
        | inl d ↦ inr (
          (λ a. cc (d, Agree-contents_differ reps 2 1 p fit (omega arith) (omega arith) q a.1)),
          rw (e, d),
        )
        | inr d ↦
            inl (contents_differ-Agree reps 2 1 p fit (omega arith) (omega arith) q d, rw (e, d))
      ]
  | inr e ↦ inr ((λ a. ground arith), rw e)
]

-- The three counts of a pipe are equal.
abbrev pub SameCounts : List ReplicaR → ℕ → Type 0
SameCounts reps p =
    (count_at reps 0 p ≡ count_at reps 1 p) × (count_at reps 0 p ≡ count_at reps 2 p)

tmr_count_round-Round :
    (reps : List ReplicaR) (n : ℕ) → Round (SameCounts reps) n (tmr_count_round reps)
unfolding tmr_count_round
tmr_count_round-Round reps n p s h = elim (Bool-cases (count_at reps 0 p == count_at reps 1 p)) [
  | inl e ↦ elim (Bool-cases (count_at reps 0 p == count_at reps 2 p)) [
    | inl f ↦ inl (((==_iff _ _).0 e, (==_iff _ _).0 f), rw (e, f))
    | inr f ↦ inr ((λ a. ground arith), rw (e, f))
  ]
  | inr e ↦ elim (Bool-cases (count_at reps 0 p == count_at reps 2 p)) [
    | inl f ↦ inr ((λ a. ground arith), rw (e, f))
    | inr f ↦ inr ((λ a. ground arith), rw (e, f))
  ]
]

-- The first replica's output is the others'.
abbrev SameOutputs : List ReplicaR → ℕ → Type 0
SameOutputs reps p = (output reps 0 p ≡ output reps 1 p) × (output reps 0 p ≡ output reps 2 p)

tmr_content_round-Round :
    (reps : List ReplicaR) (n : ℕ)
    → CountsFit reps 3
    → ((p : ℕ) → p < n → SameCounts reps p)
    → Round (SameOutputs reps) n (tmr_content_round reps)
unfolding tmr_content_round
tmr_content_round-Round reps n fit counts p s h = elim (Bool-cases (contents_differ reps 0 1 p)) [
  | inl e ↦ elim (Bool-cases (contents_differ reps 0 2 p)) [
    | inl f ↦ inr ((λ a. cc (e, one a.0)), rw (e, f))
    | inr f ↦ inr ((λ a. cc (e, one a.0)), rw (e, f))
  ]
  | inr e ↦ elim (Bool-cases (contents_differ reps 0 2 p)) [
    | inl f ↦ inr ((λ a. cc (f, two a.1)), rw (e, f))
    | inr f ↦ inl (
      (
        (contents_differ-Agree reps 3 1 p fit (omega arith) (omega arith) (counts p h).0 e).1,
        (contents_differ-Agree reps 3 2 p fit (omega arith) (omega arith) (counts p h).1 f).1,
      ),
      rw (e, f),
    )
  ]
]
  where
    one : output reps 0 p ≡ output reps 1 p → contents_differ reps 0 1 p ≡ false
    one = Agree-contents_differ reps 3 1 p fit (omega arith) (omega arith) (counts p h).0

    two : output reps 0 p ≡ output reps 2 p → contents_differ reps 0 2 p ≡ false
    two = Agree-contents_differ reps 3 2 p fit (omega arith) (omega arith) (counts p h).1

-- With two replicas whose reads all succeeded, the vote raises no alarm exactly when they agree, in
-- count and in content, on every output pipe.
pub dmr_verdict_iff :
    (reps : List ReplicaR) (n i : ℕ)
    → CountsFit reps 2
    → ((dmr_verdict reps n i).0 ≡ false) ↔ ((p : ℕ) → p < n → Agree reps 0 1 p)
unfolding dmr_verdict
dmr_verdict_iff reps n i fit = (
  flag_down (Agree reps 0 1) n (dmr_round reps) (dmr_round-Round reps n fit) i,
  (λ all.
      ap (λ (v : Verdict). v.0)
        (all_pass (Agree reps 0 1) n (dmr_round reps) (dmr_round-Round reps n fit) (false, i) all)),
)

module _ (reps : List ReplicaR) (n i : ℕ) (fit : CountsFit reps 3) where
  abbrev pub counted : Verdict
  counted = for_range n 0 (tmr_count_round reps) (false, i)

  pub counts_pass : counted.0 ≡ false → (p : ℕ) → p < n → SameCounts reps p
  counts_pass =
      flag_down (SameCounts reps) n (tmr_count_round reps) (tmr_count_round-Round reps n) i

  counted_unchanged : ((p : ℕ) → p < n → SameCounts reps p) → counted ≡ (false, i)
  counted_unchanged =
      all_pass (SameCounts reps) n (tmr_count_round reps) (tmr_count_round-Round reps n) (false, i)

  counted-down : (tmr_verdict reps n i).0 ≡ false → counted.0 ≡ false
  unfolding tmr_verdict
  counted-down h = elim (Bool-cases counted.0) [ inl up ↦ ground arith | inr down ↦ down ]

  -- With equal counts only the contents are left to compare.
  pub verdict-content :
      ((p : ℕ) → p < n → SameCounts reps p)
      → tmr_verdict reps n i ≡ for_range n 0 (tmr_content_round reps) (false, i)
  unfolding tmr_verdict
  verdict-content counts = rw (counted_unchanged counts)

  tmr_sound :
      (tmr_verdict reps n i).0 ≡ false → (p : ℕ) → p < n → Agree reps 0 1 p × Agree reps 0 2 p
  tmr_sound h p below =
      let counts = counts_pass (counted-down h) in
      let outputs =
        flag_down (SameOutputs reps) n (tmr_content_round reps)
          (tmr_content_round-Round reps n fit counts) i
          (ap (λ (v : Verdict). v.0) (sym (verdict-content counts)) ∙ h) p below in
      (((counts p below).0, outputs.0), ((counts p below).1, outputs.1))

  tmr_complete :
      ((p : ℕ) → p < n → Agree reps 0 1 p × Agree reps 0 2 p) → (tmr_verdict reps n i).0 ≡ false
  tmr_complete all =
      let counts = λ (p : ℕ) (h : p < n). same_counts p (all p h) in
      ap (λ (v : Verdict). v.0)
        (verdict-content counts
          ∙ all_pass (SameOutputs reps) n (tmr_content_round reps)
              (tmr_content_round-Round reps n fit counts) (false, i)
              (λ p h. ((all p h).0.1, (all p h).1.1)))
    where
      same_counts : (p : ℕ) → Agree reps 0 1 p × Agree reps 0 2 p → SameCounts reps p
      same_counts p a = (a.0.0, a.1.0)

-- With three replicas whose reads all succeeded, the vote raises no alarm exactly when all three
-- agree, in count and in content, on every output pipe.
pub tmr_verdict_iff :
    (reps : List ReplicaR) (n i : ℕ)
    → CountsFit reps 3
    → ((tmr_verdict reps n i).0 ≡ false) ↔ ((p : ℕ) → p < n → Agree reps 0 1 p × Agree reps 0 2 p)
tmr_verdict_iff reps n i fit = (tmr_sound reps n i fit, tmr_complete reps n i fit)
