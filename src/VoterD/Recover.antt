-- ===== src/VoterD/Recover.antt =====
-- voter/voterd.c: a replica is replaced (`restart_prep`), and what happens when the timer runs out
-- (`voterRestartHandler`).
use s3res.Prelude.{
  ℕ, ◌+◌, ◌-◌, ◌%◌, none, some, false, List, [], ◌∷◌, ◌++◌, get_or, set, replicate, length, ◌==◌,
  for_range, if◌then◌else◌,
}
use s3res.Sys.{failed, got, Wake, fd_isset, reap}
use s3res.VoteBuff.{copy_pipe}
use s3res.VoteBuff.RepType.{unreplicated, smr, dmr, tmr, rep_type_error}
use s3res.Replicas.{Replica, Fleet, rep_of, vot_of, change_vot, now, call, cleanup_replica}
use s3res.Replicas.Count.{behind_rep}
use s3res.Replicas.Restart.{restart_replica, start_replicas}
use s3res.Runs.{Run, running, exited, ◌then_do◌, for_run}
use s3res.VoterD.{Desktop, World, ext_of, on_fleet}
use s3res.VoterD.Data.{process_data, write_buffer, send_pipe}

-- The descriptors that `stealPipes` asks for.
unfoldable pub steal_set : Replica → List ℕ
steal_set rep =
    for_range rep.pipe_count 0
      (λ i fds.
        let fd = get_or rep.voter_rep_in_copy i 0 in if fd == 0 then fds else fds ++ (fd ∷ []))
      []

-- A failed read() leaves -1 in the count: like 0, it returns nothing later.
unfoldable pub steal_round : Wake → Replica → ℕ → List (List ℕ) → List (List ℕ)
steal_round w rep i buffers =
    let fd = get_or rep.voter_rep_in_copy i 0 in
    if fd_isset (steal_set rep) w fd
    then elim (w.reads fd) [ failed ↦ set buffers i [] | got bytes ↦ set buffers i bytes ]
    else buffers

-- The contents of the buffers, one for each pipe; their counts are the lengths.
unfoldable pub steal_pipes : Wake → Replica → List (List ℕ) → List (List ℕ)
steal_pipes w rep buffers =
    if w.woken then for_range rep.pipe_count 0 (steal_round w rep) buffers else buffers

unfoldable pub return_pipes : ℕ → List (List ℕ) → Fleet → Fleet
return_pipes r buffers f =
    for_range (rep_of f.reps r).pipe_count 0
      (λ i u.
        let bytes = get_or buffers i [] in
        if length bytes == 0 then u else write_buffer (vot_of u.reps r i).fd_out bytes u)
      f

-- One round of the loop of `restart_prep` over the pipes.
unfoldable pub hand_over : ℕ → ℕ → ℕ → Desktop → Run Desktop
hand_over restartee restarter i d =
    let source = vot_of d.fleet.reps restarter i in
    if source.fd_in == 0
    then running d
    else send_pipe i restarter (
        on_fleet
          (λ f. record f { reps = change_vot f.reps restartee i (λ pipe. copy_pipe pipe source) })
          d)

-- Up to the loop that frees the buffers: it frees PIPE_LIMIT (ten) entries of an array that has one for
-- each pipe, so with fewer pipes it accesses what lies behind the array.
unfoldable pub restart_prep : World → ℕ → ℕ → Desktop → Run Desktop
restart_prep w restartee restarter d =
    let stolen =
      steal_pipes (w.steal (now d.fleet)) (rep_of d.fleet.reps restarter)
        (replicate d.pipe_count []) in
    let restarted =
      on_fleet
        (restart_replica w.kernel d.rep_count d.ext_pipes restarter restartee d.replica_priority)
        (record d { timer_started = false }) in
    for_run d.pipe_count 0 (hand_over restartee restarter) restarted then_do (λ u.
      running (on_fleet (λ f. return_pipes restarter stolen (return_pipes restartee stolen f)) u))

-- The branch for one replica: it is started again, and the last data are sent again.
unfoldable pub cold_restart : World → Desktop → Run Desktop
cold_restart w d =
    elim (start_replicas w.kernel d.rep_count d.controller_name d.ext_pipes d.pipe_count
      d.replica_priority (call (reap ∷ []) (cleanup_replica 0 d.fleet))) [
        | none ↦ exited
        | some started ↦ running (
            for_range d.pipe_count 0
              (λ p u. if (ext_of u p).fd_in == 0 then u else process_data w (ext_of u p) p u)
              (record d { fleet = started }))
      ]

-- The branch for more than one: the replica that is behind on the timed pipe is replaced.
unfoldable pub warm_restart : World → Desktop → Run Desktop
warm_restart w d =
    let restartee =
      behind_rep d.fleet.reps d.rep_count (get_or d.timer_stop_index d.current_timer 0) in
    restart_prep w restartee ((restartee + (d.rep_count - 1)) % d.rep_count) d

unfoldable pub voter_restart_handler : World → Desktop → Run Desktop
voter_restart_handler w d = elim d.rep_type [
  | smr ↦ cold_restart w d
  | dmr ↦ warm_restart w d
  | tmr ↦ warm_restart w d
  | unreplicated ↦ running d
  | rep_type_error ↦ running d
]
