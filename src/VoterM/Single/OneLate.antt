-- ===== src/VoterM/Single/OneLate.antt =====
-- What leaves the voter when one replica is late, on a single core.
use native.Mathlib.Nat.{mod-lt}
use s3res.Prelude.{
  ℕ, ◌+◌, ◌-◌, ◌%◌, ◌<◌, ◌≡◌, ◌≢◌, sym, subst, ap, ap₂, ◌∙◌, inl, inr, true, false, some,
  Option-cases, arith, ◌++◌, ◌==◌,
}
use s3res.VoterM.State.{Voter, count_at}
use s3res.VoterM.Input.{check_wait_on_input}
use s3res.VoterM.Collect.{stop_pipe}
use s3res.VoterM.Recover.{kill_and_clean, neighbour}
use s3res.VoterM.Recover.Kill.{kill_and_clean-Keeps}
use s3res.VoterM.Recover.Start.{Responsive}
use s3res.VoterM.Send.Props.{AnswersFit}
use s3res.VoterM.Turn.Masking.{
  all_answers, Keeps-all_answers, Keeps-AnswersFit, Delivers, recover-Delivers,
}
use s3res.VoterM.Turn.Timeout.{one_back}
use s3res.VoterM.Single.{SingleWorld, send_collect, expire_single}
use s3res.VoterM.Single.Count.{served, send_collect-none, send_collect-some, send_collect-counts}
use s3res.VoterM.Single.Answered.{Shaped, NoneAtEnd}
use s3res.VoterM.Single.Missing.{serve-Outcomes}

-- What `sendCollect` comes back with is what its loop has counted.
send_collect-served :
    (w : SingleWorld) (v : Voter) (active n : ℕ) (u : Voter)
    → (chosen : v.active_pipe_index ≡ some active) → (expects : check_wait_on_input v ≡ true)
    → send_collect w v ≡ some (some n, u)
    → served w v active chosen expects ≡ some (n, u)
send_collect-served w v active n u chosen expects h =
    elim (Option-cases (served w v active chosen expects)) [
      | inl none_yet ↦ absurd (cc (h, send_collect-none w v active chosen expects none_yet))
      | inr ((c, u'), back) ↦ cc (h, back, send_collect-some w v active chosen expects c u' back)
    ]

-- The branch for a timeout sends what the replica before the one to blame has answered.
expire_single-Delivers :
    (w : SingleWorld) (v : Voter)
    → Responsive w.spawn
    → 1 < v.rep_count
    → v.fault_index < v.rep_count
    → AnswersFit v.replicas ((v.fault_index + (v.rep_count - 1)) % v.rep_count)
    → Delivers v
        (all_answers v ((v.fault_index + (v.rep_count - 1)) % v.rep_count))
        (expire_single w v)
unfolding expire_single
expire_single-Delivers w v live many f_in fit =
    let f = v.fault_index in
    let k = kill_and_clean-Keeps f v in
    let cleaned = kill_and_clean f v in
    let next : neighbour cleaned ≡ (f + (v.rep_count - 1)) % v.rep_count =
      rw (k.fault_index, k.rep_count) in
    let (done, runs, written) = recover-Delivers w.spawn cleaned live (
      Keeps-AnswersFit (neighbour cleaned) k
        (subst (λ r. AnswersFit v.replicas r) (sym next) fit)) in
    let several : (cleaned.rep_count == 1) ≡ false = rw k.rep_count (ground arith) in
    (
      done,
      rw several runs,
      written
          ∙ ap₂ ◌++◌ k.written (Keeps-all_answers (neighbour cleaned) k ∙ ap (all_answers v) next),
    )

-- One late replica is masked on a single core. There are two replicas or more, each with a count for
-- each output pipe; in a turn that expects answers, `sendCollect` comes back with all answers but one, no read()
-- has found the end of a file, and no read of a replica other than the one to blame has failed. Then
-- every replica but the one to blame has output on the timed pipe; and if a replica that is restarted
-- connects and tells its pid, the timeout ends with the loop running, and what it has written is exactly
-- the answers of the replica before the one to blame (counted round), which is another one.
pub one_late_masks :
    (w : SingleWorld) (v : Voter) (active n : ℕ) (u : Voter)
    → v.active_pipe_index ≡ some active
    → check_wait_on_input v ≡ true
    → 1 < v.rep_count
    → Shaped v.rep_count v.out_pipe_count v.replicas
    → ((r : ℕ) → NoneAtEnd (w.answers r))
    → Responsive w.spawn
    → send_collect w v ≡ some (some n, u)
    → n + 1 ≡ v.rep_count
    → ((r : ℕ) → r < v.rep_count → r ≢ u.fault_index → AnswersFit u.replicas r)
    → let h = (u.fault_index + (v.rep_count - 1)) % v.rep_count in
      ((s : ℕ) → s < v.rep_count → s ≢ u.fault_index → 0 < count_at u.replicas s (stop_pipe v))
      × (h < v.rep_count)
      × (h ≢ u.fault_index)
      × Delivers u (all_answers u h) (expire_single w u)
one_late_masks w v active n u chosen expects many shape ok live h one_missing fit =
    let o =
      serve-Outcomes w active v.rep_count ok v.rep_count 0 0 (record v { timeout_occurred = false })
        u n shape (omega arith) (send_collect-served w v active n u chosen expects h) in
    let f_in : u.fault_index < v.rep_count =
      omega (arith, send_collect-counts w v active n u chosen expects h) in
    let before_in : (u.fault_index + (v.rep_count - 1)) % v.rep_count < v.rep_count =
      mod-lt (u.fault_index + (v.rep_count - 1)) (omega arith) in
    let another = one_back u.fault_index v.rep_count many f_in in
    (
      (λ s s_in ne. o.one (omega arith) s (omega arith) (omega arith) ne),
      before_in,
      another,
      subst (λ k. Delivers u (all_answers u ((u.fault_index + (k - 1)) % k)) (expire_single w u))
          o.goes.reps
          (expire_single-Delivers w u live (omega (arith, o.goes.reps)) (omega (arith, o.goes.reps))
            (subst (λ k. AnswersFit u.replicas ((u.fault_index + (k - 1)) % k)) (sym o.goes.reps)
              (fit _ before_in another))),
    )
