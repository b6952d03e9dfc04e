-- ===== src/VoterM/Turn/Masking.antt =====
-- What leaves the voter when a replica is faulty.
use s3res.Prelude.{
  ℕ, zero, suc, ◌+◌, ◌%◌, ◌<◌, ◌≡◌, ◌≢◌, refl, ap, ◌∙◌, true, false, Bool-cases, get_or, ap₂, inl,
  inr, List, [], ◌++◌, take, arith, length, subst, sym,
}
use s3res.Sys.{Syscall}
use s3res.VoterM.State.{ReplicaR, Voter}
use s3res.Sys.Writes.{writes, writes-append}
use s3res.VoterM.State.Keeps.{Keeps}
use s3res.VoterM.Recover.{Spawn, kill_and_clean, neighbour}
use s3res.VoterM.Recover.Kill.{kill_and_clean-Keeps}
use s3res.VoterM.Recover.Start.{Responsive, start_replicas-Keeps, start_replicas-total}
use s3res.VoterM.Send.{send_data}
use s3res.VoterM.Send.Props.{answers, AnswersFit, answers_congr, send_data_lem, writes-answers}
use s3res.VoterM.Vote.{Verdict, verdict, tmr_verdict, check_sdc}
use s3res.VoterM.Vote.Agree.{Agree, CountsFit}
use s3res.VoterM.Vote.Detect.{tmr_verdict_iff}
use s3res.VoterM.Vote.Blame.{OthersAgree, tmr_verdict-Blames}
use s3res.VoterM.Turn.{Outcome, running, recover, settle}

-- all the answers of replica `r`, as writes to the outside
abbrev pub all_answers : Voter → ℕ → List Syscall
all_answers v r = answers v.replicas v.ext_out_fds r v.out_pipe_count 0

-- every answer on its way out is written as it was collected
pub Keeps-all_answers : {u v : Voter} (r : ℕ) → Keeps u v → all_answers v r ≡ all_answers u r
Keeps-all_answers {u} {v} r k =
    rw (k.out_pipe_count, k.ext_out_fds)
      (answers_congr v.replicas u.replicas u.ext_out_fds r r u.out_pipe_count 0 (λ q _ _.
        let c = ap (λ (l : List ℕ). get_or l q 0) (k.counts r) in
        let b = ap (λ (l : List (List ℕ)). get_or l q []) (k.buffers r) in (c, ap₂ take c b)))

Agree-all_answers :
    (v : Voter) (r s : ℕ)
    → ((p : ℕ) → p < v.out_pipe_count → Agree v.replicas r s p)
    → all_answers v r ≡ all_answers v s
Agree-all_answers v r s agree =
    answers_congr v.replicas v.replicas v.ext_out_fds r s v.out_pipe_count 0
      (λ q _ h. agree q (omega arith))

-- What is kept fits as it did.
pub Keeps-AnswersFit :
    {u v : Voter} (r : ℕ) → Keeps u v → AnswersFit u.replicas r → AnswersFit v.replicas r
Keeps-AnswersFit {u} {v} r k fit p =
    let c = ap (λ (l : List ℕ). get_or l p 0) (k.counts r) in
    let b = ap (λ (l : List (List ℕ)). length (get_or l p [])) (k.buffers r) in
    omega (arith, c, b, fit p)

send_data-writes :
    (r : ℕ) (v : Voter)
    → AnswersFit v.replicas r
    → writes (send_data r v).calls ≡ writes v.calls ++ all_answers v r
send_data-writes r v fit =
    ap writes (send_data_lem r v fit).0
    ∙ writes-append v.calls (all_answers v r)
    ∙ ap (λ l. writes v.calls ++ l) (writes-answers v.replicas v.ext_out_fds r v.out_pipe_count 0)

-- How a turn ends well: the loop goes on, and what has been written since `v` is `out`.
abbrev pub Delivers : Voter → List Syscall → Outcome → Type 0
Delivers v out o = (u : Voter) × (o ≡ running u) × (writes u.calls ≡ writes v.calls ++ out)

-- A restart of the replica blamed delivers the neighbour's answers.
pub recover-Delivers :
    (s : Spawn) (v : Voter)
    → Responsive s
    → AnswersFit v.replicas (neighbour v)
    → Delivers v (all_answers v (neighbour v)) (recover s v)
unfolding recover
recover-Delivers s v live fit =
    let (v', e) = start_replicas-total s false v.fault_index 1 v live in
    let k = start_replicas-Keeps s false v.fault_index 1 v e in
    let next = neighbour v' in
    let same_next : neighbour v' ≡ neighbour v = rw (k.fault_index, k.rep_count) in
    (
      send_data next v',
      rw (e, recover),
      send_data-writes next v'
            (Keeps-AnswersFit next k (subst (λ r. AnswersFit v.replicas r) (sym same_next) fit))
          ∙ ap₂ ◌++◌ k.written (Keeps-all_answers next k ∙ ap (all_answers v) same_next),
    )

first_agrees :
    (reps : List ReplicaR) (p h : ℕ)
    → h < 3
    → Agree reps 0 1 p × Agree reps 0 2 p
    → Agree reps 0 h p
first_agrees reps p zero h_in both = (refl, refl)
first_agrees reps p (suc zero) h_in both = both.0
first_agrees reps p (suc (suc zero)) h_in both = both.1
first_agrees reps p (suc (suc (suc h))) h_in both = absurd (omega arith)

module _ (s : Spawn) (v : Voter) (f h : ℕ) (live : Responsive s) (three : v.rep_count ≡ 3)
    (fit : CountsFit v.replicas 3) (f_in : f < 3) (h_in : h < 3) (ne : h ≢ f)
    (agree : (p : ℕ) → p < v.out_pipe_count → OthersAgree v.replicas f p) where
  abbrev judged : Verdict
  judged = tmr_verdict v.replicas v.out_pipe_count v.fault_index

  verdict-tmr : verdict v ≡ judged
  unfolding verdict
  verdict-tmr = rw three

  to_neighbour : all_answers v ((f + 2) % 3) ≡ all_answers v h
  to_neighbour =
      Agree-all_answers v ((f + 2) % 3) h
        (λ p below. agree p below ((f + 2) % 3) h (omega arith) h_in (omega arith) ne)

  settle_quiet : judged.0 ≡ false → Delivers v (all_answers v h) (settle s v)
  unfolding settle check_sdc
  settle_quiet down =
      let all = (tmr_verdict_iff v.replicas v.out_pipe_count v.fault_index fit).0 down in
      let u : Voter = record v { fault_index = judged.1 } in
      (
        send_data 0 u,
        rw (verdict-tmr, down),
        send_data-writes 0 u (λ p. fit 0 p (omega arith))
            ∙ ap (λ l. writes v.calls ++ l)
                (Agree-all_answers v 0 h
                  (λ p below. first_agrees v.replicas p h h_in (all p below))),
      )

  settle_alarm : judged.0 ≡ true → Delivers v (all_answers v h) (settle s v)
  unfolding settle check_sdc
  settle_alarm up =
      let blamed =
        tmr_verdict-Blames v.replicas f v.out_pipe_count v.fault_index f_in fit agree up in
      let u : Voter = record v { fault_index = judged.1 } in
      let k = kill_and_clean-Keeps judged.1 u in
      let cleaned = kill_and_clean judged.1 u in
      let next : neighbour cleaned ≡ (f + 2) % 3 = rw (k.fault_index, k.rep_count, three, blamed) in
      let (done, runs, written) = recover-Delivers s cleaned live (
        Keeps-AnswersFit (neighbour cleaned) k (
          subst (λ r. AnswersFit v.replicas r) (sym next)
            (λ p. fit ((f + 2) % 3) p (omega arith)))) in
      (
        done,
        rw (verdict-tmr, up) runs,
        written
            ∙ ap₂ ◌++◌ k.written
                (Keeps-all_answers (neighbour cleaned) k ∙ ap (all_answers v) next ∙ to_neighbour),
      )

  settle_answers : Delivers v (all_answers v h) (settle s v)
  settle_answers = elim (Bool-cases judged.0) [
    | inl up ↦ settle_alarm up
    | inr down ↦ settle_quiet down
  ]

-- One faulty replica is masked. Three replicas have answered in time; of these all but at most one,
-- `f`, agree on every output pipe, and the reads of all succeeded. If a replica that is restarted
-- connects and tells its pid, the turn ends with the loop running, and what it has written is exactly
-- the answers of any replica `h` other than `f`, each once, in the order of the pipes: whether or not
-- the vote raised an alarm, and whatever `f` has answered.
pub settle_masks :
    (s : Spawn) (v : Voter) (f h : ℕ)
    → Responsive s
    → v.rep_count ≡ 3
    → CountsFit v.replicas 3
    → f < 3
    → h < 3
    → h ≢ f
    → ((p : ℕ) → p < v.out_pipe_count → OthersAgree v.replicas f p)
    → Delivers v (all_answers v h) (settle s v)
settle_masks = settle_answers
