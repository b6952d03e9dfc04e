-- ===== src/VoterM/Recover.antt =====
-- The part of voter/voterm.c that kills a replica and starts one: `killAndClean`, `forkReplicas`
-- and `startReplicas`.
use Prim.Native.String.{String}
use s3res.Prelude.{
  ℕ, zero, suc, ◌+◌, ◌-◌, ◌/◌, ◌%◌, Bool, Option, none, some, List, [], ◌∷◌, ◌++◌, set, for_range,
  ltb, ◌==◌, if◌then◌else◌,
}
use s3res.Prelude.Text.{codes}
use s3res.Prelude.Int.{ℤ, pos, negsuc}
use s3res.Sys.{Syscall, close_fd, kill_pid, reap, fork_exec, Signal, sigkill, restart_signal}
use s3res.VoterM.State.{ReplicaR, Voter, rep_at, fd_in_at, fd_out_at, update_rep, issue}
use s3res.Sys.{Client}
use s3res.VoterM.FdServer.{accept_send_fds}
pub mod Kill
pub mod Start
pub mod Argv

-- One round of the first loop of `killAndClean`: both sides of an input pipe.
unfoldable pub close_in : ℕ → ℕ → Voter → Voter
close_in rep p v = record v {
  replicas = update_rep v.replicas rep (λ r. record r { fd_ins = set r.fd_ins p 0 });
  for_reps = update_rep v.for_reps rep (λ r. record r { fd_ins = set r.fd_ins p 0 });
  calls =
      v.calls ++ (close_fd (fd_in_at v.replicas rep p) ∷ close_fd (fd_in_at v.for_reps rep p) ∷ []);
}

-- One round of the second: both sides of an output pipe.
unfoldable pub close_out : ℕ → ℕ → Voter → Voter
close_out rep p v = record v {
  replicas = update_rep v.replicas rep (λ r. record r { fd_outs = set r.fd_outs p 0 });
  for_reps = update_rep v.for_reps rep (λ r. record r { fd_outs = set r.fd_outs p 0 });
  calls =
      v.calls
      ++ (close_fd (fd_out_at v.replicas rep p) ∷ close_fd (fd_out_at v.for_reps rep p) ∷ []);
}

unfoldable pub kill_and_clean : ℕ → Voter → Voter
kill_and_clean rep_to_kill v =
    let killed = issue (kill_pid (pos (rep_at v.replicas rep_to_kill).pid) sigkill ∷ []) v in
    let ins = for_range v.in_pipe_count 0 (close_in rep_to_kill) killed in
    let outs = for_range v.out_pipe_count 0 (close_out rep_to_kill) ins in
    if v.rep_count == 1 then issue (reap ∷ []) outs else outs

-- The text of a priority in `forkReplicas`. In C `-n % 10` is `-(n % 10)`, and the test
-- `priority / 10.0 > 0` holds for the positive numbers.
pub priority_arg : ℤ → List ℕ
priority_arg (pos zero) = 48 ∷ []
priority_arg (pos (suc n)) = (48 + suc n / 10) ∷ (48 + suc n % 10) ∷ []
priority_arg (negsuc n) = b'-' ∷ (48 - suc n % 10) ∷ []

-- The text of the pipe count in `forkReplicas`.
pub pipe_count_arg : ℕ → List ℕ
pipe_count_arg zero = 48 ∷ []
pipe_count_arg (suc n) = (48 + suc n / 10) ∷ (48 + suc n % 10) ∷ []

-- `forkReplicas(rep_index, 1)`: the arguments of the new process. The voter is told the pid by the
-- replica itself, later.
pub fork_replica : ℕ → Voter → Voter
fork_replica rep_index v =
    issue
      (fork_exec (
          codes v.controller_name
          ∷ priority_arg (rep_at v.replicas rep_index).priority
          ∷ pipe_count_arg (v.in_pipe_count + v.out_pipe_count)
          ∷ [])
        ∷ [])
      v

-- What the kernel and the new replicas answer: the two ends of each pipe() (or -1), and each
-- replica's connection.
pub record Spawn : Type 0 where
  pub pipe_in : ℕ → ℕ → Option (ℕ × ℕ)
  pub pipe_out : ℕ → ℕ → Option (ℕ × ℕ)
  pub client : ℕ → Client

-- A new input pipe: the voter keeps the write end, the replica gets the read end.
unfoldable pub open_in : Spawn → ℕ → ℕ → Voter → Voter
open_in s index p v = elim (s.pipe_in index p) [
  | none ↦ v
  | some (read_end, write_end) ↦ record v {
    replicas = update_rep v.replicas index (λ r. record r { fd_ins = set r.fd_ins p write_end });
    for_reps = update_rep v.for_reps index (λ r. record r { fd_ins = set r.fd_ins p read_end });
  }
]

-- A new output pipe, the other way round.
unfoldable pub open_out : Spawn → ℕ → ℕ → Voter → Voter
open_out s index p v = elim (s.pipe_out index p) [
  | none ↦ v
  | some (read_end, write_end) ↦ record v {
    replicas = update_rep v.replicas index (λ r. record r { fd_outs = set r.fd_outs p read_end });
    for_reps = update_rep v.for_reps index (λ r. record r { fd_outs = set r.fd_outs p write_end });
  }
]

-- the replica that is told to fork itself, and whose data are sent after a recovery
abbrev pub neighbour : Voter → ℕ
neighbour v = (v.fault_index + (v.rep_count - 1)) % v.rep_count

-- The last loop of `startReplicas`, one replica: `none` for exit(-1).
unfoldable pub connect : Spawn → Bool → ℕ → Voter → Option Voter
connect s forking index v =
    let asked =
      if forking
      then fork_replica index v
      else issue (kill_pid (pos (rep_at v.replicas (neighbour v)).pid) restart_signal ∷ []) v in
    let (answer, new) =
      accept_send_fds (s.client index) (rep_at v.for_reps index) v.rep_info_in v.rep_info_out in
    elim answer [
      | none ↦ none
      | some pid ↦ some (record asked {
        replicas = update_rep asked.replicas index (λ r. record r { pid = pid });
        calls = asked.calls ++ new;
      })
    ]

unfoldable pub connect_all : Spawn → Bool → ℕ → ℕ → Voter → Option Voter
connect_all s forking zero index v = some v
connect_all s forking (suc n) index v = elim (connect s forking index v) [
  | none ↦ none
  | some v' ↦ connect_all s forking n (index + 1) v'
]

unfoldable pub start_replicas : Spawn → Bool → ℕ → ℕ → Voter → Option Voter
start_replicas s forking rep_index rep_start_count v =
    let ins =
      for_range rep_start_count rep_index
        (λ index u. for_range u.in_pipe_count 0 (open_in s index) u) v in
    let outs =
      for_range rep_start_count rep_index
        (λ index u. for_range u.out_pipe_count 0 (open_out s index) u) ins in
    connect_all s forking rep_start_count rep_index outs
