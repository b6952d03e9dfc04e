-- ===== src/VoterM/Turn/Timeout.antt =====
-- What leaves the voter when a replica does not answer in time.
use native.Mathlib.Nat.{mod-lt, mod-eq_of_lt, mod-eq-sub-mod}
use s3res.Prelude.{
  ℕ, ◌+◌, ◌-◌, ◌%◌, ◌<◌, ◌≡◌, ◌≢◌, ap, ap₂, subst, sym, ◌∙◌, false, inl, inr, ◌++◌, arith, ◌==◌,
  lt-cases,
}
use s3res.VoterM.State.{Voter, count_at}
use s3res.VoterM.Collect.{find_fault_replica}
use s3res.VoterM.Collect.Blame.{AllOutput, find_fault_replica-unresponsive}
use s3res.VoterM.Recover.{kill_and_clean, neighbour}
use s3res.VoterM.Recover.Kill.{kill_and_clean-Keeps}
use s3res.VoterM.Recover.Start.{Responsive}
use s3res.VoterM.Turn.{World, expire}
use s3res.VoterM.Send.Props.{AnswersFit}
use s3res.VoterM.Turn.Masking.{
  all_answers, Keeps-all_answers, Keeps-AnswersFit, Delivers, recover-Delivers,
}

pub one_back : (f n : ℕ) → 1 < n → f < n → (f + (n - 1)) % n ≢ f
one_back f n many f_in = elim (lt-cases (f + (n - 1)) n) [
  | inl (_, below) ↦ λ same. omega (arith, mod-eq_of_lt below)
  | inr (_, over) ↦ λ same.
      let inside : f + (n - 1) - n < n = omega arith in
      omega (arith, mod-eq-sub-mod over, mod-eq_of_lt inside)
]

-- One unresponsive replica is masked. Of two replicas or more, all but `f` have output on every pipe,
-- and `f` lacks some; no read of one of the others has failed. If a replica that is restarted connects
-- and tells its pid, the timeout ends with the loop running, and what it has written is exactly the
-- answers of the replica before `f` (counted round), which is another one.
pub expire_masks :
    (w : World) (v : Voter) (f q : ℕ)
    → Responsive w.spawn
    → 1 < v.rep_count
    → f < v.rep_count
    → ((r : ℕ) → r < v.rep_count → r ≢ f → AllOutput v r v.out_pipe_count)
    → ((r : ℕ) → r < v.rep_count → r ≢ f → AnswersFit v.replicas r)
    → q < v.out_pipe_count
    → count_at v.replicas f q ≡ 0
    → let h = (f + (v.rep_count - 1)) % v.rep_count in
      (h < v.rep_count) × (h ≢ f) × Delivers v (all_answers v h) (expire w v)
unfolding expire find_fault_replica
expire_masks w v f q live many f_in healthy fit q_in empty =
    let blamed = find_fault_replica v in
    let found = find_fault_replica-unresponsive v f q f_in healthy q_in empty in
    let k = kill_and_clean-Keeps blamed.fault_index blamed in
    let cleaned = kill_and_clean blamed.fault_index blamed in
    let next : neighbour cleaned ≡ (f + (v.rep_count - 1)) % v.rep_count =
      rw (k.fault_index, k.rep_count, found) in
    let answered : AnswersFit v.replicas ((f + (v.rep_count - 1)) % v.rep_count) =
      fit _ (mod-lt (f + (v.rep_count - 1)) (omega arith)) (one_back f v.rep_count many f_in) in
    let (done, runs, written) = recover-Delivers w.spawn cleaned live (
      Keeps-AnswersFit (neighbour cleaned) k
        (subst (λ r. AnswersFit v.replicas r) (sym next) answered)) in
    let several : (cleaned.rep_count == 1) ≡ false = rw k.rep_count (ground arith) in
    (
      mod-lt (f + (v.rep_count - 1)) (omega arith),
      one_back f v.rep_count many f_in,
      (
        done,
        rw several runs,
        written
            ∙ ap₂ ◌++◌ k.written
                (Keeps-all_answers (neighbour cleaned) k ∙ ap (all_answers v) next),
      ),
    )
