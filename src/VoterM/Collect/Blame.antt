-- ===== src/VoterM/Collect/Blame.antt =====
-- Whom `findFaultReplica` blames for a timeout.
use s3res.Prelude.{
  ℕ, ◌+◌, ◌<◌, ◌≤◌, ◌≡◌, ◌≢◌, refl, ap, ◌↔◌, Bool-cases, ◌⊎◌, inl, inr, for_range, for_range_inv,
  lt-cases, ltb, ◌==◌, ==_iff, arith, subst, if◌then◌else◌,
}
use s3res.VoterM.State.{Voter, count_at}
use s3res.VoterM.Collect.{rep_score, fault_round, find_fault_replica}

-- Replica `r` has output on each of the first `n` pipes.
abbrev pub AllOutput : Voter → ℕ → ℕ → Type 0
AllOutput v r n = (p : ℕ) → p < n → 0 < count_at v.replicas r p

-- the body of the loop over the pipes
abbrev score_round : Voter → ℕ → ℕ → ℕ → ℕ
score_round v r p score = if ltb 0 (count_at v.replicas r p) then score + 1 else score

rep_score-inv :
    (v : Voter) (r n : ℕ)
    → let s = for_range n 0 (score_round v r) 0 in
      (s ≤ n) × (s ≡ n → AllOutput v r n) × (AllOutput v r n → s ≡ n)
rep_score-inv v r n =
    for_range_inv (λ k s. (s ≤ k) × (s ≡ k → AllOutput v r k) × (AllOutput v r k → s ≡ k))
      (score_round v r) n 0 n 0 (omega arith)
      (λ k s _ _ (bound, full, complete). elim (lt-cases 0 (count_at v.replicas r k)) [
        | inl (e, has) ↦ rw e (
          (omega arith),
          (λ h p below. elim (lt-cases p k) [
            | inl (_, old) ↦ full (omega arith) p old
            | inr (_, new) ↦
                let same : k ≡ p = omega arith in subst (λ q. 0 < count_at v.replicas r q) same has
          ]),
          (λ all. ap (λ n. n + 1) (complete (λ p below. all p (omega arith)))),
        )
        | inr (e, none) ↦
            rw e
              ((omega arith), (λ h. absurd (omega arith)), (λ all. absurd (omega (arith, all k))))
      ])
      (omega arith, (λ _ p below. absurd (omega arith)), (λ _. refl))

-- A replica's score is the number of pipes exactly when it has output on every one.
pub rep_score_full :
    (v : Voter) (r : ℕ)
    → (rep_score v r ≤ v.out_pipe_count)
      × ((rep_score v r ≡ v.out_pipe_count) ↔ AllOutput v r v.out_pipe_count)
unfolding rep_score
rep_score_full v r =
    let (bound, full, complete) = rep_score-inv v r v.out_pipe_count in (bound, (full, complete))

-- Of the first `k` replicas, `fault` has the lowest score, and those before it score more.
abbrev pub Lowest : Voter → ℕ → ℕ → Type 0
Lowest v k fault =
    ((r : ℕ) → r < k → rep_score v fault ≤ rep_score v r)
    × ((r : ℕ) → r < fault → rep_score v fault < rep_score v r)

-- What holds of (lowest_score, fault_index) after `k` rounds.
abbrev Scanned : Voter → ℕ → ℕ × ℕ → Type 0
Scanned v k (lowest, fault) =
    ((fault ≡ 0) × (lowest ≡ v.out_pipe_count) × ((r : ℕ) → r < k → lowest ≤ rep_score v r))
    ⊎ ((fault < k) × (lowest ≡ rep_score v fault) × Lowest v k fault)

fault_round-Scanned :
    (v : Voter) (k : ℕ) (s : ℕ × ℕ) → Scanned v k s → Scanned v (k + 1) (fault_round v k s)
unfolding fault_round
fault_round-Scanned v k (lowest, fault) h = elim (lt-cases (rep_score v k) lowest) [
  | inl (e, less) ↦ rw e (
      inr (
        omega arith,
        refl,
        (
          (λ r below. elim (lt-cases r k) [
            | inl (_, old) ↦ omega (arith, at_least r old)
            | inr (_, new) ↦
                let same : k ≡ r = omega arith in
                subst (λ q. rep_score v k ≤ rep_score v q) same (omega arith)
          ]),
          (λ r below. omega (arith, at_least r below)),
        ),
      ))
  | inr (e, more) ↦ rw e (elim h [
    | inl (first, full, all) ↦ inl (
      first,
      full,
      λ r below. elim (lt-cases r k) [
        | inl (_, old) ↦ all r old
        | inr (_, new) ↦
            let same : k ≡ r = omega arith in subst (λ q. lowest ≤ rep_score v q) same more
      ],
    )
    | inr (in_range, found, (all, before)) ↦ inr (
      omega arith,
      found,
      (
        (λ r below. elim (lt-cases r k) [
          | inl (_, old) ↦ all r old
          | inr (_, new) ↦
              let same : k ≡ r = omega arith in
              subst (λ q. rep_score v fault ≤ rep_score v q) same (omega arith)
        ]),
        before,
      ),
    )
  ])
]
  where
    at_least : (r : ℕ) → r < k → lowest ≤ rep_score v r
    at_least r below = elim h [
      | inl (_, _, all) ↦ all r below
      | inr (_, found, (all, _)) ↦ omega (arith, all r below)
    ]

scan :
    (v : Voter)
    → Scanned v v.rep_count (for_range v.rep_count 0 (fault_round v) (v.out_pipe_count, 0))
scan v =
    for_range_inv (Scanned v) (fault_round v) v.rep_count 0 v.rep_count (v.out_pipe_count, 0)
      (omega arith) (λ k s _ _ h. fault_round-Scanned v k s h)
      (inl (refl, refl, λ r below. absurd (omega arith)))

Scanned-Lowest :
    (v : Voter) (n : ℕ) (s : ℕ × ℕ) → 0 < n → Scanned v n s → (s.1 < n) × Lowest v n s.1
Scanned-Lowest v n (lowest, fault) some_rep h = elim h [
  | inl (first, full, all) ↦ (
    omega arith,
    (
      (λ r below. omega (arith, all r below, (rep_score_full v fault).0)),
      (λ r below. absurd (omega arith)),
    ),
  )
  | inr (in_range, _, low) ↦ (in_range, low)
]

-- `findFaultReplica` blames a replica with the fewest pipes that hold output, and of several the one
-- with the lowest index; if every replica has output on every pipe, it blames replica 0.
pub find_fault_replica-Lowest :
    (v : Voter)
    → 0 < v.rep_count
    → let fault = (find_fault_replica v).fault_index in
      (fault < v.rep_count) × Lowest v v.rep_count fault
unfolding find_fault_replica
find_fault_replica-Lowest v some_rep = Scanned-Lowest v v.rep_count _ some_rep (scan v)

-- If every replica but `f` has output on every pipe, and `f` lacks some, `findFaultReplica` blames
-- `f`.
pub find_fault_replica-unresponsive :
    (v : Voter) (f q : ℕ)
    → f < v.rep_count
    → ((r : ℕ) → r < v.rep_count → r ≢ f → AllOutput v r v.out_pipe_count)
    → q < v.out_pipe_count
    → count_at v.replicas f q ≡ 0
    → (find_fault_replica v).fault_index ≡ f
find_fault_replica-unresponsive v f q f_in healthy q_in empty =
    let fault = (find_fault_replica v).fault_index in
    let (in_range, (all, _)) = find_fault_replica-Lowest v (omega arith) in
    elim (Bool-cases (fault == f)) [
      | inl e ↦ (==_iff fault f).0 e
      | inr e ↦
          let full = (rep_score_full v fault).1.1 (healthy fault in_range (ground arith)) in
          let (bound, (has, _)) = rep_score_full v f in
          absurd (omega (arith, all f f_in, has (omega (arith, all f f_in)) q q_in))
    ]
