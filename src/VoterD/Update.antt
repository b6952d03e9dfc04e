-- ===== src/VoterD/Update.antt =====
-- voter/voterd.c: one turn of the voter (`doOneUpdate`), and the loop of `main`.
use s3res.Prelude.{
  ℕ, zero, suc, ◌+◌, ◌-◌, Bool, true, false, List, [], ◌∷◌, ◌++◌, ◌&&◌, not, set, write_at, length,
  ltb, ◌==◌, for_range, if◌then◌else◌,
}
use s3res.Prelude.Int.{pos, ltz}
use s3res.Sys.{ReadResult, failed, got, Wake, fd_isset}
use s3res.VoteBuff.{VotePipe}
use s3res.Replicas.{vot_of, held, now}
use s3res.Runs.{Run, running, ◌then_do◌, for_run}
use s3res.VoterD.{Desktop, World, ext_of}
use s3res.VoterD.Data.{process_data}
use s3res.VoterD.Recover.{voter_restart_handler}
use s3res.VoterD.Vote.{process_from_rep}

-- Do all replicas hold the same number of bytes on each pipe?
unfoldable pub check_sync : Desktop → Bool
check_sync d =
    for_range d.pipe_count 0
      (λ p nsync.
        for_range (d.rep_count - 1) 1
          (λ r same. if held d.fleet.reps 0 p == held d.fleet.reps r p then same else false) nsync)
      true

abbrev add_open : ℕ → List ℕ → List ℕ
add_open fd fds = if fd == 0 then fds else fds ++ (fd ∷ [])

-- The descriptors that FD_SET puts in the set.
unfoldable pub update_set : Desktop → List ℕ
update_set d =
    let external =
      if check_sync d && not d.timer_started
      then for_range d.pipe_count 0 (λ p fds. add_open (ext_of d p).fd_in fds) []
      else [] in
    for_range d.pipe_count 0
      (λ p fds. for_range d.rep_count 0 (λ r. add_open (vot_of d.fleet.reps r p).fd_in) fds)
      external

-- A read() into an external pipe's buffer; a failed one leaves -1 in the count.
unfoldable pub store_ext : ReadResult → VotePipe → VotePipe
store_ext failed pipe = record pipe { buff_count = 0 }
store_ext (got bytes) pipe = record pipe {
  buff_count = length bytes;
  buffer = write_at pipe.buffer 0 bytes;
}

-- The loop over the external pipes, from `p` on: only the first that is ready is read.
unfoldable pub scan_ext : World → List ℕ → Wake → ℕ → ℕ → Desktop → Desktop
scan_ext w select_set wake zero p d = d
scan_ext w select_set wake (suc n) p d =
    let fd = (ext_of d p).fd_in in
    let rest = scan_ext w select_set wake n (p + 1) d in
    let pipe = store_ext (w.read (now d.fleet) fd) (ext_of d p) in
    let stored = record d { ext_pipes = set d.ext_pipes p pipe } in
    if fd == 0
    then rest
    else if fd_isset select_set wake fd
    then if ltb 0 pipe.buff_count then process_data w pipe p stored else stored
    else rest

-- One replica's pipe, in the loops over all of them.
unfoldable pub scan_rep : World → List ℕ → Wake → ℕ → ℕ → Desktop → Run Desktop
scan_rep w select_set wake p r d =
    let fd = (vot_of d.fleet.reps r p).fd_in in
    if fd == 0
    then running d
    else if fd_isset select_set wake fd
    then process_from_rep w r p d
    else running d

-- What follows the test of the timer.
unfoldable pub serve_pipes : World → Wake → Desktop → Run Desktop
serve_pipes w wake d =
    let fds = update_set d in
    let fed = scan_ext w fds wake d.pipe_count 0 d in
    if wake.woken
    then for_run d.pipe_count 0 (λ p. for_run d.rep_count 0 (scan_rep w fds wake p)) fed
    else running d

-- `wake.elapsed` is the time since the watchdog was set, when the turn begins.
unfoldable pub do_one_update : World → Wake → Desktop → Run Desktop
do_one_update w wake d =
    if d.timer_started && not (ltz (pos wake.elapsed) d.voting_timeout)
    then voter_restart_handler w d then_do serve_pipes w wake
    else serve_pipes w wake d

-- `while(1) doOneUpdate();`, for as many turns as the environment is given for.
unfoldable pub main_loop : List (World × Wake) → Desktop → Run Desktop
main_loop [] d = running d
main_loop ((w, wake) ∷ turns) d = do_one_update w wake d then_do main_loop turns
