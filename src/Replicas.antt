-- ===== src/Replicas.antt =====
-- src/replicas.c and include/replicas.h: the replicas of the voters that keep `struct vote_pipe`,
-- and how they are set up and cleaned away. CONTROLLER_PIN is QUAD_PIN_POLICY, as system_config.h
-- has it for four cores.
use Prim.Native.String.{String}
use s3res.Prelude.{
  ℕ, ◌+◌, Bool, Option, List, [], ◌∷◌, ◌++◌, get_or, set, length, ◌==◌, for_range, if◌then◌else◌,
}
use s3res.Prelude.Int.{ℤ, pos, negsuc}
use s3res.Sys.{Syscall, close_fd, kill_pid, Signal, sigkill, Client}
use s3res.VoteBuff.{VotePipe, no_pipe, reset_vote_pipe}
pub mod Count
pub mod Balance
pub mod Restart
pub mod Access
pub mod Least
pub mod Valid
pub mod Process
pub mod Leader
mod Argv
mod Tests

-- `struct replica`
pub record Replica : Type 0 where
  pub pid : ℤ
  pub priority : ℤ
  pub pinned_cpu : ℤ
  pub name : String
  pub pipe_count : ℕ
  pub vot_pipes : List VotePipe
  pub voter_rep_in_copy : List ℕ
  pub rep_pipes : List VotePipe

-- The array of replicas, and the system calls issued so far, oldest first.
pub record Fleet : Type 0 where
  pub reps : List Replica
  pub calls : List Syscall

-- What the kernel and the replicas answer. The first argument is the time of the question, counted
-- in the system calls issued before: whether sched_set_policy() succeeds, what fork() answers, the
-- ends of the pipe() for a replica and a pipe (`none` for -1), and how a client connects.
pub record Kernel : Type 0 where
  pub policy_set : ℕ → Bool
  pub fork : ℕ → ℤ
  pub pipe : ℕ → ℕ → ℕ → Option (ℕ × ℕ)
  pub client : ℕ → Client

-- what stands in for a replica out of range
abbrev pub no_rep : Replica
no_rep = record {
  pid = pos 0;
  priority = pos 0;
  pinned_cpu = pos 0;
  name = "";
  pipe_count = 0;
  vot_pipes = [];
  voter_rep_in_copy = [];
  rep_pipes = [];
}

-- `reps[r]`, `reps[r].vot_pipes[p]` and its count
abbrev pub rep_of : List Replica → ℕ → Replica
rep_of reps r = get_or reps r no_rep

abbrev pub vot_of : List Replica → ℕ → ℕ → VotePipe
vot_of reps r p = get_or (rep_of reps r).vot_pipes p no_pipe

abbrev pub held : List Replica → ℕ → ℕ → ℕ
held reps r p = (vot_of reps r p).buff_count

-- assignments through `reps[r]`, and through `reps[r].vot_pipes[p]`
abbrev pub change : List Replica → ℕ → (Replica → Replica) → List Replica
change reps r f = set reps r (f (rep_of reps r))

abbrev pub change_vot : List Replica → ℕ → ℕ → (VotePipe → VotePipe) → List Replica
change_vot reps r p f =
    change reps r
      (λ rep. record rep { vot_pipes = set rep.vot_pipes p (f (get_or rep.vot_pipes p no_pipe)) })

-- the time of the next question to the kernel
abbrev pub now : Fleet → ℕ
now f = length f.calls

abbrev pub call : List Syscall → Fleet → Fleet
call new f = record f { calls = f.calls ++ new }

-- One round of the inner loop of `initReplicas`: both sides of a pipe.
unfoldable pub reset_pair : ℕ → List Syscall × Replica → List Syscall × Replica
reset_pair jndex (closed, rep) =
    let (vot_closed, vot) = reset_vote_pipe (get_or rep.vot_pipes jndex no_pipe) in
    let (rep_closed, rep_pipe) = reset_vote_pipe (get_or rep.rep_pipes jndex no_pipe) in
    (
      closed ++ vot_closed ++ rep_closed,
      record rep {
        vot_pipes = set rep.vot_pipes jndex vot;
        rep_pipes = set rep.rep_pipes jndex rep_pipe;
      },
    )

-- One round of `initReplicas`. `index` counts within the array that the function is given, which
-- begins at `first`.
unfoldable pub init_rep : ℕ → String → ℤ → ℕ → Fleet → Fleet
init_rep first name priority index f =
    let rep = rep_of f.reps (first + index) in
    let (closed, reset) = for_range rep.pipe_count 0 reset_pair ([], rep) in
    record {
      reps = set f.reps (first + index) (record reset {
        name = name;
        pid = negsuc 0;
        priority = priority;
        pinned_cpu = pos (index + 1);
        pipe_count = 0;
      });
      calls = f.calls ++ closed;
    }

-- `initReplicas(&reps[first], rep_num, name, priority)`
unfoldable pub init_replicas : ℕ → ℕ → String → ℤ → Fleet → Fleet
init_replicas first rep_num name priority f = for_range rep_num 0 (init_rep first name priority) f

-- `if (fd > 0) close(fd)`
abbrev close_open : ℕ → List Syscall
close_open fd = if fd == 0 then [] else close_fd fd ∷ []

-- One round of the loop of `cleanupReplica`.
unfoldable pub close_pair : Replica → ℕ → List Syscall → List Syscall
close_pair rep i closed =
    let vot = get_or rep.vot_pipes i no_pipe in
    let own = get_or rep.rep_pipes i no_pipe in
    closed
    ++ close_open vot.fd_in
    ++ close_open vot.fd_out
    ++ close_open own.fd_in
    ++ close_open own.fd_out

unfoldable pub cleanup_replica : ℕ → Fleet → Fleet
cleanup_replica rep_index f =
    let rep = rep_of f.reps rep_index in
    call (kill_pid rep.pid sigkill ∷ for_range rep.pipe_count 0 (close_pair rep) []) f
