-- ===== src/VoterM/Turn/Whole.antt =====
-- A whole turn, from the input to the answers that leave the voter.
use s3res.Prelude.{
  ℕ, ◌+◌, ◌<◌, ◌≡◌, ◌≢◌, refl, sym, subst, ap, ap₂, ◌∙◌, Bool, true, false, inl, inr, some, List,
  ◌∷◌, ◌++◌, get_or_outside, lt-cases, arith, append_assoc, zero, suc,
}
use s3res.Sys.{Wake, write_to}
use s3res.VoterM.State.{ReplicaR, Voter, rep_at, fd_in_at, issue}
use s3res.Sys.Writes.{writes, writes-append}
use s3res.VoterM.Input.{recv_data, check_wait_on_input, send_to_reps}
use s3res.VoterM.Input.Props.{inputs, check_wait_on_input_iff, send_to_reps_lem}
use s3res.VoterM.Input.Frame.{recv_data-Received}
use s3res.VoterM.Collect.{collect_from_reps}
use s3res.VoterM.Collect.Steps.{collect_rule}
use s3res.VoterM.Collect.Bounds.{RepsAreValid, ReadsOk, collect_from_reps-IsValid}
use s3res.VoterM.Recover.Start.{Responsive}
use s3res.VoterM.Vote.Agree.{CountsFit}
use s3res.VoterM.Vote.Blame.{OthersAgree}
use s3res.VoterM.Turn.{World, turn, settle}
use s3res.VoterM.Turn.Masking.{all_answers, Delivers, settle_masks}

-- Valid replicas have counts that fit.
RepsAreValid-CountsFit :
    (n out : ℕ) (reps : List ReplicaR) → RepsAreValid n out reps → CountsFit reps n
RepsAreValid-CountsFit n out reps valid r p r_in = elim (lt-cases p out) [
  | inl (_, inside) ↦ omega (arith, (valid r r_in).fits p inside, (valid r r_in).storage p inside)
  | inr (_, outside) ↦
      let none =
        get_or_outside (rep_at reps r).buff_counts p 0 (omega (arith, (valid r r_in).counts)) in
      omega (arith, none)
]

-- Waiting issues no call.
collect_from_reps_quiet :
    (set_timer : Bool) (expected : ℕ) (ws : List Wake) (v : Voter) {n : ℕ} {u : Voter}
    → collect_from_reps set_timer expected ws v ≡ some (n, u)
    → u.calls ≡ v.calls
unfolding collect_from_reps
collect_from_reps_quiet set_timer expected ws v h =
    collect_rule (λ _ _ u. u.calls ≡ v.calls) (λ _ u. u.calls ≡ v.calls) set_timer expected
      (λ _ _ _ u e _. e) (λ _ _ _ u e _ _. e) (λ _ _ _ u e _. e) ws 0 _ refl h

writes-inputs : (v : Voter) (active n r : ℕ) → writes (inputs v active n r) ≡ inputs v active n r
unfolding inputs
writes-inputs v active zero r = refl
writes-inputs v active (suc n) r =
    ap (λ l. write_to (fd_in_at v.replicas r active) v.ext_in_bytes ∷ l)
      (writes-inputs v active n (r + 1))

-- A turn whose input starts a timer and whose answers all come in time is settled by the vote.
turn_settles :
    (w : World) (v : Voter) (n : ℕ) (u : Voter)
    → let (received, v1) = recv_data w.input v in
      let (expected, v2) = send_to_reps v1 in
      received ≡ true
      → expected ≡ true
      → collect_from_reps true v2.rep_count w.answers v2 ≡ some (n, u)
      → u.timeout_occurred ≡ false
      → turn w v ≡ settle w.spawn u
unfolding turn
turn_settles w v n u received expected collected in_time =
    rw (received, expected, collected, in_time) refl

valid_moves :
    (n n' out out' : ℕ) (reps reps' : List ReplicaR)
    → n' ≡ n
    → out' ≡ out
    → reps' ≡ reps
    → RepsAreValid n out reps
    → RepsAreValid n' out' reps'
valid_moves n n' out out' reps reps' a b c h =
    subst (λ k. RepsAreValid k out' reps') (sym a)
      (subst (λ k. RepsAreValid n k reps') (sym b) (subst (RepsAreValid n out) (sym c) h))

module _ (w : World) (v : Voter) (active : ℕ) where
  -- behind `recvData`, and behind `sendToReps`
  abbrev v1 : Voter
  v1 = (recv_data w.input v).1

  abbrev v2 : Voter
  v2 = (send_to_reps v1).1

  module _ (chosen : v1.active_pipe_index ≡ some active) where
    sent : v2 ≡ issue (inputs v1 active v1.rep_count 0) v1
    sent = (send_to_reps_lem v1 active chosen).0

    v2-valid :
        RepsAreValid v.rep_count v.out_pipe_count v.replicas
        → RepsAreValid v2.rep_count v2.out_pipe_count v2.replicas
    v2-valid =
        let (a, b, e) = recv_data-Received w.input v in
        valid_moves v.rep_count v2.rep_count v.out_pipe_count v2.out_pipe_count v.replicas
          v2.replicas (ap (λ (u : Voter). u.rep_count) sent ∙ ap (λ (u : Voter). u.rep_count) e)
          (ap (λ (u : Voter). u.out_pipe_count) sent ∙ ap (λ (u : Voter). u.out_pipe_count) e)
          (ap (λ (u : Voter). u.replicas) sent ∙ ap (λ (u : Voter). u.replicas) e)

    v2-rep_count : v2.rep_count ≡ v.rep_count
    v2-rep_count =
        let (a, b, e) = recv_data-Received w.input v in
        ap (λ (u : Voter). u.rep_count) sent ∙ ap (λ (u : Voter). u.rep_count) e

    v2-writes : v.rep_count ≡ 3 → writes v2.calls ≡ writes v.calls ++ inputs v1 active 3 0
    v2-writes three =
        let (a, b, e) = recv_data-Received w.input v in
        let count : v1.rep_count ≡ 3 = ap (λ (u : Voter). u.rep_count) e ∙ three in
        ap (λ (u : Voter). writes u.calls) sent
        ∙ writes-append v1.calls (inputs v1 active v1.rep_count 0)
        ∙ ap₂ ◌++◌ (ap (λ (u : Voter). writes u.calls) e)
            (writes-inputs v1 active v1.rep_count 0 ∙ ap (λ k. inputs v1 active k 0) count)

-- One faulty replica is masked in a whole turn. The input is on a pipe that starts a timer, three
-- replicas whose buffers are as allocated answer in time, and the reads of their answers all succeed;
-- of these answers all but those of at most one replica, `f`, agree on every output pipe. If a replica
-- that is restarted connects and tells its pid, the turn ends with the loop running, and what it has
-- written is exactly this: the input, once to each replica in their order, and then the answers of
-- any replica `h` other than `f`, each once, in the order of the pipes.
pub turn_masks :
    (w : World) (v : Voter) (active n f h : ℕ) (u : Voter)
    → let (received, v1) = recv_data w.input v in
      let v2 = (send_to_reps v1).1 in
      received ≡ true
      → v1.active_pipe_index ≡ some active
      → check_wait_on_input v1 ≡ true
      → collect_from_reps true v2.rep_count w.answers v2 ≡ some (n, u)
      → u.timeout_occurred ≡ false
      → ReadsOk w.answers
      → Responsive w.spawn
      → v.rep_count ≡ 3
      → RepsAreValid 3 v.out_pipe_count v.replicas
      → f < 3
      → h < 3
      → h ≢ f
      → ((p : ℕ) → p < u.out_pipe_count → OthersAgree u.replicas f p)
      → Delivers v (inputs v1 active 3 0 ++ all_answers u h) (turn w v)
turn_masks w v active n f h u received chosen timed collected in_time reads live three valid f_in
      h_in ne agree =
    let (valid', (count, _)) =
      collect_from_reps-IsValid true _ w.answers (v2 w v active) reads
        (v2-valid w v active chosen
          (subst (λ k. RepsAreValid k v.out_pipe_count v.replicas) (sym three) valid))
        collected in
    let three' : u.rep_count ≡ 3 = count ∙ v2-rep_count w v active chosen ∙ three in
    let fit =
      RepsAreValid-CountsFit 3 u.out_pipe_count u.replicas
        (subst (λ k. RepsAreValid k u.out_pipe_count u.replicas) three' valid') in
    let (done, runs, written) = settle_masks w.spawn u f h live three' fit f_in h_in ne agree in
    let expected =
      (send_to_reps_lem _ active chosen).1.1 ((check_wait_on_input_iff _ active chosen).0 timed) in
    (
      done,
      turn_settles w v n u received expected collected in_time ∙ runs,
      written
          ∙ ap (λ l. l ++ all_answers u h)
              (ap writes (collect_from_reps_quiet true _ w.answers (v2 w v active) collected)
                ∙ v2-writes w v active chosen three)
          ∙ append_assoc (writes v.calls) _ _,
    )
