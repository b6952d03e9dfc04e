-- ===== src/Replicas/Leader.antt =====
-- `balanceReps` gives the highest priority to a replica that is furthest behind.
use s3res.Prelude.{ℕ, ◌<◌, ◌≤◌, ◌≡◌, ◌⊎◌, inl, inr, subst, List, lt-cases, for_range_inv, arith}
use s3res.Replicas.{Replica}
use s3res.Replicas.Count.{rep_gap}
use s3res.Replicas.Balance.{balance_round, most_behind}

-- One round: the new choice is in range, no gap that was no larger becomes larger, and the round's
-- own is not.
round_lem :
    (reps : List Replica) (num k : ℕ) (s : ℕ × ℕ)
    → (((balance_round reps num k s).0 ≡ k) ⊎ ((balance_round reps num k s).0 ≡ s.0))
      × (rep_gap reps num s.0 ≤ rep_gap reps num (balance_round reps num k s).0)
      × (rep_gap reps num k ≤ rep_gap reps num (balance_round reps num k s).0)
unfolding balance_round
round_lem reps num k (starting, second) = (ground arith, ground arith, ground arith)

-- The replica that is chosen first is one of the array, and none is further behind.
pub most_behind_lem :
    (reps : List Replica) (num : ℕ)
    → 0 < num
    → let b = (most_behind reps num).0 in
      (b < num) × ((r : ℕ) → r < num → rep_gap reps num r ≤ rep_gap reps num b)
unfolding most_behind
most_behind_lem reps num some_rep =
    for_range_inv
      (λ k s. (s.0 < num) × ((r : ℕ) → r < k → rep_gap reps num r ≤ rep_gap reps num s.0))
      (balance_round reps num) num 0 num (0, 1) (omega arith)
      (λ k s _ below (inside, old).
        let (new, up, own) = round_lem reps num k s in
        (
          elim new [ inl e ↦ omega (arith, e, below) | inr e ↦ omega (arith, e, inside) ],
          (λ r before. elim (lt-cases r k) [
            | inl (_, earlier) ↦ omega (arith, old r earlier, up)
            | inr (_, now) ↦
                let same : k ≡ r = omega arith in
                subst (λ i. rep_gap reps num i ≤ rep_gap reps num (balance_round reps num k s).0)
                  same own
          ]),
        ))
      (some_rep, (λ r h. absurd (omega arith)))
