-- ===== src/VoterM/Collect/Done.antt =====
-- How `collectFromReps` ends: with all the answers expected, or in a timeout, and always before long.
use s3res.Prelude.{
  ℕ, ◌<◌, ◌≤◌, ◌≡◌, ◌↔◌, refl, ◌∙◌, Bool, true, false, Bool-cases, ◌⊎◌, inl, inr, some,
  for_range_inv, arith, List, [], ◌∷◌, ◌++◌, ◌==◌,
}
use s3res.Prelude.Int.{pos, ltz}
use s3res.Sys.{Wake, fd_isset}
use s3res.VoterM.State.{Voter, fd_out_at}
use s3res.VoterM.Collect.{stop_pipe, Sweep, sweep_pipe, sweep, collect_loop, collect_from_reps}
use s3res.VoterM.Collect.Steps.{
  after, expired, stored, collect_expired, collect_done, collect_more, collect_rule,
}

-- The flag is up exactly when enough answers have been counted.
abbrev Counted : ℕ → Sweep → Type 0
Counted expected s =
    ((s.done ≡ false) × (s.rep_done < expected)) ⊎ ((s.done ≡ true) × (expected ≤ s.rep_done))

sweep_pipe-Counted :
    (v : Voter) (fds : List ℕ) (w : Wake) (expected r p : ℕ) (s : Sweep)
    → Counted expected s
    → Counted expected (sweep_pipe v fds w expected r p s)
unfolding sweep_pipe
sweep_pipe-Counted v fds w expected r p s h =
    elim (Bool-cases (fd_isset fds w (fd_out_at s.reps r p))) [
      | inl e ↦ rw e (elim (Bool-cases (p == stop_pipe v)) [
        | inl e' ↦ rw e' (ground arith)
        | inr e' ↦ rw e' h
      ])
      | inr e ↦ rw e h
    ]

after-Counted :
    (w : Wake) (expected d : ℕ) (v : Voter) → d < expected → Counted expected (after w expected d v)
unfolding sweep
after-Counted w expected d v h =
    let P = λ (_ : ℕ) (t : Sweep). Counted expected t in
    for_range_inv P _ v.rep_count 0 v.rep_count _ (omega arith)
      (λ r t _ _ k.
        for_range_inv P _ v.out_pipe_count 0 v.out_pipe_count t (omega arith)
          (λ p u _ _ c. sweep_pipe-Counted v _ w expected r p u c) k)
      (inl (refl, h))

-- When `collectFromReps`, told to expect at least one answer, comes back, a timeout has occurred exactly if it has counted fewer answers
-- on the timed pipe than it was told to expect.
pub collect_from_reps-timeout_iff :
    (set_timer : Bool) (expected : ℕ) (ws : List Wake) (v : Voter) {n : ℕ} {u : Voter}
    → 0 < expected
    → collect_from_reps set_timer expected ws v ≡ some (n, u)
    → (u.timeout_occurred ≡ true) ↔ (n < expected)
unfolding collect_from_reps
collect_from_reps-timeout_iff set_timer expected ws v some_expected h =
    collect_rule (λ _ d u. (d < expected) × (u.timeout_occurred ≡ false))
      (λ n u. (u.timeout_occurred ≡ true) ↔ (n < expected)) set_timer expected
      (λ w ws d u (low, _) _. ((λ _. low), (λ _. refl)))
      (λ w ws d u (low, calm) _ f. ground (arith, after-Counted w expected d u low))
      (λ w ws d u (low, calm) f. ground (arith, after-Counted w expected d u low)) ws 0 _
      (some_expected, refl) h

-- Waiting with the timer set always ends: `collectFromReps` comes back at the latest when it finds,
-- before a sleep, that the voting timeout has passed, whatever has happened before.
pub collect_from_reps-returns :
    (expected : ℕ) (before later : List Wake) (w : Wake) (v : Voter)
    → ltz (pos w.elapsed) v.voting_timeout ≡ false
    → (r : ℕ × Voter) × (collect_from_reps true expected (before ++ w ∷ later) v ≡ some r)
unfolding collect_from_reps
collect_from_reps-returns expected before later w v late =
    returns before 0 (record v { timeout_occurred = false }) late
  where
    returns :
        (before : List Wake) (d : ℕ) (u : Voter)
        → ltz (pos w.elapsed) u.voting_timeout ≡ false
        → (r : ℕ × Voter) × (collect_loop true expected (before ++ w ∷ later) d u ≡ some r)
    returns [] d u late = (_, collect_expired true expected w later d u (rw late refl))
    returns (x ∷ before) d u late = elim (Bool-cases (expired true x u)) [
      | inl e ↦ (_, collect_expired true expected x (before ++ w ∷ later) d u e)
      | inr e ↦ elim (Bool-cases (after x expected d u).done) [
        | inl f ↦ (_, collect_done true expected x (before ++ w ∷ later) d u e f)
        | inr f ↦
            let (r, eq) =
              returns before (after x expected d u).rep_done (stored x expected d u) late in
            (r, collect_more true expected x (before ++ w ∷ later) d u e f ∙ eq)
      ]
    ]
