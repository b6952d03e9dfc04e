-- ===== src/VoterD/Valid.antt =====
-- Every operation of the desktop voter keeps the ring buffers valid, and none breaks.
use s3res.Prelude.{
  ℕ, zero, suc, ◌+◌, ◌-◌, ◌%◌, ◌<◌, ◌≤◌, ◌≡◌, ◌≢◌, inl, inr, refl, sym, ap, ◌∙◌, Bool, true, false,
  Option, none, some, List, [], ◌∷◌, ◌==◌, ltb, get_or, length, if◌then◌else◌, if_both, OnSome,
  Option-cases, Bool-cases, for_range, for_range_inv, lt-cases, subst, take, arith,
}
use s3res.Sys.{ReadResult, Status, ok, error, Wake, fd_isset}
use s3res.VoteBuff.{VotePipe, no_pipe, pipe_to_buff, copy_pipe}
use s3res.VoteBuff.RepType.{Replication, unreplicated, smr, dmr, tmr, rep_type_error}
use s3res.VoteBuff.Inv.{IsValid, pipe_to_buff-IsValid, copy_pipe-IsValid}
use s3res.Replicas.{Replica, Fleet, rep_of, vot_of, change_vot, cleanup_replica, call}
use s3res.Replicas.Access.{vot_of-inside}
use s3res.Replicas.Valid.{
  FleetIsValid, change_vot-FleetIsValid, balance_reps-FleetIsValid, start_replicas-FleetIsValid,
  restart_replica-FleetIsValid,
}
use s3res.Replicas.Count.{bytes_ready}
use s3res.VoterD.{Desktop, World, ext_of, on_fleet}
use s3res.Runs.{
  Run, running, exited, broken, ◌then_do◌, for_run, Ends, then_do-Ends, for_run-Ends, weaken-Ends,
}
use s3res.VoterD.Data.{start_timer, write_buffer, process_data, stop_timer, send_pipe}
use s3res.VoterD.Send.{Sent, send_pipe-Sent}
use s3res.VoterD.Recover.{
  return_pipes, hand_over, restart_prep, cold_restart, warm_restart, voter_restart_handler,
}
use s3res.VoterD.Vote.{Choice, nobody, send, replace, tmr_choice, check_sdc, process_from_rep}
pub mod Turn

-- The rings of all replicas are valid.
abbrev pub RingsAreValid : Desktop → Type 0
RingsAreValid d = FleetIsValid d.fleet.reps

-- The operation does not break, and ends with valid rings unless the process exits.
abbrev pub Fine : Run Desktop → Type 0
Fine run = Ends Unit RingsAreValid run

pub for_run-Fine :
    (round : ℕ → Desktop → Run Desktop) (n first : ℕ) (d : Desktop)
    → ((k : ℕ) (u : Desktop) → RingsAreValid u → Fine (round k u))
    → RingsAreValid d
    → Fine (for_run n first round d)
for_run-Fine round n first d step v =
    for_run-Ends Unit (λ _ u. RingsAreValid u) round n first (first + n) d refl
      (λ k u _ _. step k u) v

pub start_timer-fleet :
    (timed : List ℕ) (p : ℕ) (d : Desktop) → (start_timer timed p d).fleet ≡ d.fleet
unfolding start_timer
start_timer-fleet timed p d = ground arith

-- Writes to the replicas change no ring.
writes-reps :
    (n : ℕ) (fd : ℕ → Fleet → ℕ) (bytes : List ℕ) (f : Fleet)
    → (for_range n 0 (λ r u. write_buffer (fd r u) bytes u) f).reps ≡ f.reps
unfolding write_buffer
writes-reps n fd bytes f =
    for_range_inv (λ _ u. u.reps ≡ f.reps) (λ r u. write_buffer (fd r u) bytes u) n 0 n f
      (omega arith) (λ r u _ _ e. e) refl

pub process_data-valid :
    (w : World) (pipe : VotePipe) (p : ℕ) (d : Desktop)
    → RingsAreValid d
    → RingsAreValid (process_data w pipe p d)
unfolding process_data
process_data-valid w pipe p d v =
    subst FleetIsValid
      (sym (
        writes-reps d.rep_count (λ r u. (vot_of u.reps r p).fd_out)
          (take pipe.buff_count pipe.buffer) _))
      (balance_reps-FleetIsValid w.kernel d.rep_count d.replica_priority _
        (subst (λ f. FleetIsValid f.reps) (sym (start_timer-fleet d.timer_start_index p d)) v))

return_pipes-reps :
    (r : ℕ) (buffers : List (List ℕ)) (f : Fleet) → (return_pipes r buffers f).reps ≡ f.reps
unfolding return_pipes write_buffer
return_pipes-reps r buffers f =
    for_range_inv (λ _ u. u.reps ≡ f.reps) _ (rep_of f.reps r).pipe_count 0
      (rep_of f.reps r).pipe_count f (omega arith)
      (λ i u _ _ e.
        if_both (λ (t : Fleet). t.reps ≡ f.reps) (length (get_or buffers i []) == 0) e e)
      refl

pub send_pipe_none :
    (p c : ℕ) (d : Desktop)
    → bytes_ready d.fleet.reps d.rep_count p ≡ 0
    → send_pipe p c d ≡ running d
unfolding send_pipe
send_pipe_none p c d e = rw e refl

pub send_pipe-Fine : (p c : ℕ) (d : Desktop) → RingsAreValid d → Fine (send_pipe p c d)
send_pipe-Fine p c d v = elim (lt-cases 0 (bytes_ready d.fleet.reps d.rep_count p)) [
  | inl (_, some_ready) ↦ exit_any (send_pipe p c d) (send_pipe-Sent p c d some_ready)
  | inr (_, none_ready) ↦ subst Fine (sym (send_pipe_none p c d (omega arith))) v
]
  where
    exit_any :
        (run : Run Desktop)
        → Ends ⊥
            (Sent (bytes_ready d.fleet.reps d.rep_count p) p c d.rep_count (stop_timer p d))
            run
        → Fine run
    exit_any (running u) s = s.valid v
    exit_any exited s = tt
    exit_any broken s = s

hand_over-Fine :
    (restartee restarter i : ℕ) (d : Desktop)
    → RingsAreValid d
    → Fine (hand_over restartee restarter i d)
unfolding hand_over
hand_over-Fine restartee restarter i d v =
    elim (Bool-cases ((vot_of d.fleet.reps restarter i).fd_in == 0)) [
      | inl closed ↦ rw closed v
      | inr opened ↦
          let (inside, within) = vot_of-inside d.fleet.reps restarter i (λ absent.
            let closed : (vot_of d.fleet.reps restarter i).fd_in ≡ 0 = ap (λ t. t.fd_in) absent in
            ground arith) in
          rw opened (
            send_pipe-Fine i restarter _ (
              change_vot-FleetIsValid d.fleet.reps restartee i
                (λ pipe. copy_pipe pipe (vot_of d.fleet.reps restarter i))
                (λ target. copy_pipe-IsValid target (v restarter inside i within)) v))
    ]

pub restart_prep-Fine :
    (w : World) (restartee restarter : ℕ) (d : Desktop)
    → RingsAreValid d
    → Fine (restart_prep w restartee restarter d)
unfolding restart_prep
restart_prep-Fine w restartee restarter d v =
    then_do-Ends Unit RingsAreValid RingsAreValid _ _
      (for_run-Fine (hand_over restartee restarter) d.pipe_count 0 _
        (hand_over-Fine restartee restarter)
        (restart_replica-FleetIsValid w.kernel d.rep_count d.ext_pipes restarter restartee
          d.replica_priority d.fleet v))
      (λ u valid.
        subst FleetIsValid
          (sym (return_pipes-reps restarter _ _ ∙ return_pipes-reps restartee _ u.fleet)) valid)
