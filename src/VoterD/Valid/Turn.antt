-- ===== src/VoterD/Valid/Turn.antt =====
-- What one turn of the desktop voter keeps: the ring buffers stay valid, and it does not break.
use s3res.Prelude.{
  ℕ, zero, suc, ◌+◌, sym, Option, none, some, List, [], ◌∷◌, ◌==◌, ltb, length, if◌then◌else◌,
  if_both, OnSome, for_range, for_range_inv, subst, set, arith,
}
use s3res.Sys.{Status, ok, error, reap, Wake, fd_isset}
use s3res.VoteBuff.{VotePipe, pipe_to_buff}
use s3res.VoteBuff.RepType.{Replication, unreplicated, smr, dmr, tmr, rep_type_error}
use s3res.VoteBuff.Inv.{pipe_to_buff-IsValid}
use s3res.Replicas.{Fleet, vot_of, change_vot, cleanup_replica, call}
use s3res.Replicas.Valid.{
  FleetIsValid, change_vot-FleetIsValid, balance_reps-FleetIsValid, start_replicas-FleetIsValid,
}
use s3res.Replicas.Count.{bytes_ready}
use s3res.Replicas.Balance.{balance_reps}
use s3res.VoterD.{Desktop, World, ext_of, on_fleet}
use s3res.Runs.{Run, running, exited, then_do-Ends}
use s3res.VoterD.Data.{start_timer, process_data, send_pipe}
use s3res.VoterD.Recover.{restart_prep, cold_restart, warm_restart, voter_restart_handler}
use s3res.VoterD.Vote.{Choice, nobody, send, replace, tmr_choice, check_sdc, process_from_rep}
use s3res.VoterD.Update.{
  store_ext, scan_ext, scan_rep, update_set, serve_pipes, do_one_update, main_loop,
}
use s3res.VoterD.Valid.{
  RingsAreValid, Fine, for_run-Fine, start_timer-fleet, process_data-valid, send_pipe-Fine,
  restart_prep-Fine,
}

cold_restart-Fine : (w : World) (d : Desktop) → RingsAreValid d → Fine (cold_restart w d)
unfolding cold_restart cleanup_replica
cold_restart-Fine w d v = started-Fine _ (
    start_replicas-FleetIsValid w.kernel d.rep_count d.controller_name d.ext_pipes d.pipe_count
      d.replica_priority (call (reap ∷ []) (cleanup_replica 0 d.fleet)) v)
  where
    resend : ℕ → Desktop → Desktop
    resend p u = if (ext_of u p).fd_in == 0 then u else process_data w (ext_of u p) p u

    started-Fine :
        (o : Option Fleet)
        → OnSome (λ f. FleetIsValid f.reps) o
        → Fine (elim o [
          | none ↦ exited
          | some started ↦ running (for_range d.pipe_count 0 resend (record d { fleet = started }))
        ])
    started-Fine none h = tt
    started-Fine (some started) h =
        for_range_inv (λ _ u. RingsAreValid u) resend d.pipe_count 0 d.pipe_count
          (record d { fleet = started }) (omega arith)
          (λ p u _ _ valid.
            if_both RingsAreValid ((ext_of u p).fd_in == 0) valid
              (process_data-valid w (ext_of u p) p u valid))
          h

voter_restart_handler-Fine :
    (w : World) (d : Desktop) → RingsAreValid d → Fine (voter_restart_handler w d)
unfolding voter_restart_handler warm_restart
voter_restart_handler-Fine w d v = by_type d.rep_type
  where
    by_type :
        (t : Replication)
        → Fine (elim t [
          | smr ↦ cold_restart w d
          | dmr ↦ warm_restart w d
          | tmr ↦ warm_restart w d
          | unreplicated ↦ running d
          | rep_type_error ↦ running d
        ])
    by_type smr = cold_restart-Fine w d v
    by_type dmr = restart_prep-Fine w _ _ d v
    by_type tmr = restart_prep-Fine w _ _ d v
    by_type unreplicated = v
    by_type rep_type_error = v

check_sdc-Fine : (w : World) (p : ℕ) (d : Desktop) → RingsAreValid d → Fine (check_sdc w p d)
unfolding check_sdc
check_sdc-Fine w p d v = if_both Fine (bytes_avail == 0) v (by_type d.rep_type)
  where
    bytes_avail : ℕ
    bytes_avail = bytes_ready d.fleet.reps d.rep_count p

    choose : Choice → Run Desktop
    choose c = elim c [
      | nobody ↦ running d
      | send r ↦ send_pipe p r d
      | replace restartee restarter ↦ restart_prep w restartee restarter d
    ]

    by_choice : (c : Choice) → Fine (choose c)
    by_choice nobody = v
    by_choice (send r) = send_pipe-Fine p r d v
    by_choice (replace restartee restarter) = restart_prep-Fine w restartee restarter d v

    by_type :
        (t : Replication)
        → Fine (elim t [
          | smr ↦ send_pipe p 0 d
          | dmr ↦ send_pipe p 0 d
          | tmr ↦ choose (tmr_choice d.fleet.reps d.rep_count p bytes_avail d.rep_count 0)
          | unreplicated ↦ running d
          | rep_type_error ↦ running d
        ])
    by_type smr = send_pipe-Fine p 0 d v
    by_type dmr = send_pipe-Fine p 0 d v
    by_type tmr = by_choice (tmr_choice d.fleet.reps d.rep_count p bytes_avail d.rep_count 0)
    by_type unreplicated = v
    by_type rep_type_error = v

process_from_rep-Fine :
    (w : World) (r p : ℕ) (d : Desktop) → RingsAreValid d → Fine (process_from_rep w r p d)
unfolding process_from_rep
process_from_rep-Fine w r p d v =
    on_status (pipe_to_buff (w.read (length started.fleet.calls) pipe.fd_in) pipe).0
      (check_sdc w p
        (on_fleet (balance_reps w.kernel stored.rep_count stored.replica_priority) stored))
      (running stored) stored_valid
      (check_sdc-Fine w p
        (on_fleet (balance_reps w.kernel stored.rep_count stored.replica_priority) stored)
        (balance_reps-FleetIsValid w.kernel stored.rep_count stored.replica_priority stored.fleet
          stored_valid))
  where
    started : Desktop
    started = start_timer d.timer_stop_index p d

    pipe : VotePipe
    pipe = vot_of started.fleet.reps r p

    filled : VotePipe
    filled = (pipe_to_buff (w.read (length started.fleet.calls) pipe.fd_in) pipe).1

    stored : Desktop
    stored = on_fleet (λ f. record f { reps = change_vot f.reps r p (λ _. filled) }) started

    stored_valid : RingsAreValid stored
    stored_valid =
        change_vot-FleetIsValid started.fleet.reps r p (λ _. filled) (pipe_to_buff-IsValid _)
          (subst (λ f. FleetIsValid f.reps) (sym (start_timer-fleet d.timer_stop_index p d)) v)

    on_status :
        (s : Status) (x y : Run Desktop) → Fine y → Fine x → Fine (elim s [ ok ↦ x | error ↦ y ])
    on_status ok x y kept voted = voted
    on_status error x y kept voted = kept

scan_ext-valid :
    (w : World) (fds : List ℕ) (wake : Wake) (n p : ℕ) (d : Desktop)
    → RingsAreValid d
    → RingsAreValid (scan_ext w fds wake n p d)
unfolding scan_ext
scan_ext-valid w fds wake zero p d v = v
scan_ext-valid w fds wake (suc n) p d v =
    let pipe = store_ext (w.read (length d.fleet.calls) (ext_of d p).fd_in) (ext_of d p) in
    let fed = process_data-valid w pipe p (record d { ext_pipes = set d.ext_pipes p pipe }) v in
    let rest = scan_ext-valid w fds wake n (p + 1) d v in
    if_both RingsAreValid ((ext_of d p).fd_in == 0) rest (
      if_both RingsAreValid (fd_isset fds wake (ext_of d p).fd_in)
        (if_both RingsAreValid (ltb 0 pipe.buff_count) fed v) rest)

serve_pipes-Fine :
    (w : World) (wake : Wake) (d : Desktop) → RingsAreValid d → Fine (serve_pipes w wake d)
unfolding serve_pipes scan_rep
serve_pipes-Fine w wake d v =
    if_both Fine wake.woken
      (for_run-Fine _ d.pipe_count 0 (scan_ext w (update_set d) wake d.pipe_count 0 d)
        (λ p u valid.
          for_run-Fine (scan_rep w (update_set d) wake p) d.rep_count 0 u
            (λ r t ok_so_far. if_both Fine ((vot_of t.fleet.reps r p).fd_in == 0) ok_so_far (
              if_both Fine (fd_isset (update_set d) wake (vot_of t.fleet.reps r p).fd_in)
                (process_from_rep-Fine w r p t ok_so_far) ok_so_far))
            valid)
        (scan_ext-valid w (update_set d) wake d.pipe_count 0 d v))
      v

-- One turn of the voter does not break it.
do_one_update-Fine :
    (w : World) (wake : Wake) (d : Desktop) → RingsAreValid d → Fine (do_one_update w wake d)
unfolding do_one_update
do_one_update-Fine w wake d v =
    if_both Fine _
      (then_do-Ends Unit RingsAreValid RingsAreValid (voter_restart_handler w d)
        (serve_pipes w wake) (voter_restart_handler-Fine w d v) (serve_pipes-Fine w wake))
      (serve_pipes-Fine w wake d v)

-- Whatever the kernel, the replicas and the other programs answer, from valid ring buffers any number
-- of turns of the loop in `main` keeps every ring buffer valid, and no ring's count falls below zero,
-- restarts of replicas included, unless the process exits.
pub main_loop-Fine :
    (turns : List (World × Wake)) (d : Desktop) → RingsAreValid d → Fine (main_loop turns d)
unfolding main_loop
main_loop-Fine [] d v = v
main_loop-Fine ((w, wake) ∷ turns) d v =
    then_do-Ends Unit RingsAreValid RingsAreValid (do_one_update w wake d) (main_loop turns)
      (do_one_update-Fine w wake d v) (main_loop-Fine turns)
