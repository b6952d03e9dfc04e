-- ===== src/VoterS.antt =====
-- voter/voters.c: the voter that only restarts one replica when it dies, and passes its output on.
use Prim.Native.String.{String}
use s3res.Prelude.{
  ℕ, zero, suc, ◌+◌, Bool, none, some, List, [], ◌∷◌, ◌++◌, get_or, set, take, length, ltb, ◌==◌,
  for_range, if◌then◌else◌,
}
use s3res.Prelude.Int.{ℤ, pos, ◌-ℤ◌}
use s3res.Sys.{ReadResult, ok, error, write_to, reap, Wake, fd_isset}
use s3res.VoteBuff.{VotePipe, no_pipe, pipe_to_buff, fake_to_pipe, buff_to_pipe}
use s3res.VoteBuff.RepType.{Replication, unreplicated, smr, dmr, tmr, rep_type_error}
use s3res.Replicas.{Fleet, rep_of, vot_of, change_vot, now, call, cleanup_replica, Kernel}
use s3res.Replicas.Count.{bytes_ready}
use s3res.Replicas.Balance.{balance_reps}
use s3res.Replicas.Restart.{start_replicas}
use s3res.Runs.{Run, running, exited, broken, ◌then_do◌, for_run}
use s3res.VoterD.Update.{store_ext}
use s3res.VoterD.Init.{touch, touch_reps}
pub mod Through
mod Tests

-- The globals; `fleet` are the replicas and the system calls issued so far. `last_dead` is only set.
pub record Sequential : Type 0 where
  pub last_dead : ℤ
  pub fleet : Fleet
  pub voter_priority : ℤ
  pub replica_priority : ℤ
  pub rep_type : Replication
  pub rep_count : ℕ
  pub controller_name : String
  pub pipe_count : ℕ
  pub ext_pipes : List VotePipe

-- What the environment answers: the kernel, and what a read() of a descriptor yields at a time,
-- counted in the system calls issued before.
pub record Answers : Type 0 where
  pub kernel : Kernel
  pub read : ℕ → ℕ → ReadResult

abbrev pub ext_pipe : Sequential → ℕ → VotePipe
ext_pipe v p = get_or v.ext_pipes p no_pipe

abbrev pub with_fleet : (Fleet → Fleet) → Sequential → Sequential
with_fleet f v = record v { fleet = f v.fleet }

-- With `writeBuffer`. A count of -1, after a failed read(), is 0: nothing is written.
unfoldable pub process_data : VotePipe → ℕ → Sequential → Sequential
process_data pipe p v =
    with_fleet
      (λ f.
        for_range v.rep_count 0
          (λ r u.
            call (write_to (vot_of u.reps r p).fd_out (take pipe.buff_count pipe.buffer) ∷ []) u)
          f)
      v

-- One round of the loop of `sendPipe`.
unfoldable pub send_round : ℕ → ℕ → ℕ → ℕ → Sequential → Run Sequential
send_round p replica_num bytes_avail r v =
    let pipe = vot_of v.fleet.reps r p in
    if replica_num == r
    then elim (buff_to_pipe pipe (ext_pipe v p).fd_out bytes_avail) [
      | none ↦ broken
      | some (_, written, sent) ↦
          running (
            with_fleet (λ f. call written (record f { reps = change_vot f.reps r p (λ _. sent) }))
              v)
    ]
    else elim (fake_to_pipe pipe bytes_avail) [
      | none ↦ broken
      | some dropped ↦
          running (with_fleet (λ f. record f { reps = change_vot f.reps r p (λ _. dropped) }) v)
    ]

unfoldable pub send_pipe : ℕ → ℕ → Sequential → Run Sequential
send_pipe p replica_num v =
    let bytes_avail = bytes_ready v.fleet.reps v.rep_count p in
    if bytes_avail == 0
    then running v
    else for_run v.rep_count 0 (send_round p replica_num bytes_avail) v

unfoldable pub check_sdc : ℕ → Sequential → Run Sequential
check_sdc p v = if bytes_ready v.fleet.reps v.rep_count p == 0 then running v else elim v.rep_type [
  | smr ↦ send_pipe p 0 v
  | dmr ↦ running v
  | tmr ↦ running v
  | unreplicated ↦ running v
  | rep_type_error ↦ running v
]

unfoldable pub process_from_rep : Answers → ℕ → ℕ → Sequential → Run Sequential
process_from_rep w replica_num p v =
    let pipe = vot_of v.fleet.reps replica_num p in
    let (status, filled) = pipe_to_buff (w.read (now v.fleet) pipe.fd_in) pipe in
    let stored =
      with_fleet (λ f. record f { reps = change_vot f.reps replica_num p (λ _. filled) }) v in
    let passed =
      check_sdc p
        (with_fleet (balance_reps w.kernel stored.rep_count stored.replica_priority) stored) in
    elim status [ ok ↦ passed | error ↦ running stored ]

unfoldable pub voter_restart_handler : Answers → Sequential → Run Sequential
voter_restart_handler w v =
    let dead = record v { last_dead = (rep_of v.fleet.reps 0).pid } in
    let started =
      start_replicas w.kernel v.rep_count v.controller_name v.ext_pipes v.pipe_count
        v.replica_priority (cleanup_replica 0 v.fleet) in
    elim v.rep_type [
      | smr ↦ elim started [
        | none ↦ exited
        | some fleet ↦ running (
            for_range v.pipe_count 0
              (λ p u. if (ext_pipe u p).fd_in == 0 then u else process_data (ext_pipe u p) p u)
              (record dead { fleet = fleet }))
      ]
      | dmr ↦ running v
      | tmr ↦ running v
      | unreplicated ↦ running v
      | rep_type_error ↦ running v
    ]

abbrev add_fd : ℕ → List ℕ → List ℕ
add_fd fd fds = if fd == 0 then fds else fds ++ (fd ∷ [])

-- The descriptors that FD_SET puts in the set.
unfoldable pub read_set : Sequential → List ℕ
read_set v =
    for_range v.pipe_count 0
      (λ p fds. for_range v.rep_count 0 (λ r. add_fd (vot_of v.fleet.reps r p).fd_in) fds)
      (for_range v.pipe_count 0 (λ p. add_fd (ext_pipe v p).fd_in) [])

-- One external pipe: every one that is ready is read.
unfoldable pub read_ext : Answers → List ℕ → Wake → ℕ → Sequential → Sequential
read_ext w fds wake p v =
    let fd = (ext_pipe v p).fd_in in
    let pipe = store_ext (w.read (now v.fleet) fd) (ext_pipe v p) in
    let stored = record v { ext_pipes = set v.ext_pipes p pipe } in
    if fd == 0
    then v
    else if fd_isset fds wake fd
    then if ltb 0 pipe.buff_count then process_data pipe p stored else stored
    else v

-- One replica's pipe.
unfoldable pub read_rep : Answers → List ℕ → Wake → ℕ → ℕ → Sequential → Run Sequential
read_rep w fds wake p r v =
    let fd = (vot_of v.fleet.reps r p).fd_in in
    if fd == 0
    then running v
    else if fd_isset fds wake fd
    then process_from_rep w r p v
    else running v

-- What follows the test for a dead replica.
unfoldable pub serve_all : Answers → Wake → Sequential → Run Sequential
serve_all w wake v =
    let fds = read_set v in
    let fed = for_range v.pipe_count 0 (read_ext w fds wake) v in
    if wake.woken
    then for_run v.pipe_count 0 (λ p. for_run v.rep_count 0 (read_rep w fds wake p)) fed
    else running v

-- `child_exited` is whether waitpid() has found a child that has ended.
unfoldable pub do_one_update : Answers → Bool → Wake → Sequential → Run Sequential
do_one_update w child_exited wake v =
    let reaped = with_fleet (call (reap ∷ [])) v in
    if child_exited
    then voter_restart_handler w reaped then_do serve_all w wake
    else serve_all w wake reaped

-- The descriptor server's socket and the scheduling of the voter itself are left out.
unfoldable pub init_voter : Answers → Sequential → Run Sequential
init_voter w v =
    let replica_priority = v.voter_priority -ℤ pos 5 in
    elim (start_replicas w.kernel v.rep_count v.controller_name v.ext_pipes v.pipe_count
      replica_priority v.fleet) [
        | none ↦ exited
        | some started ↦ running (
            with_fleet (touch_reps v.rep_count) (
              for_range v.pipe_count 0
                (λ p u. record u { ext_pipes = set u.ext_pipes p (touch (ext_pipe u p)) })
                (record v { replica_priority = replica_priority; fleet = started })))
      ]
