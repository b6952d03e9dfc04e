-- ===== src/VoterM/State.antt =====
-- The globals of voter/voterm.c and `struct replicaR` of voter/voterm.h.
use Prim.Native.String.{String}
use s3res.Prelude.{
  ℕ, Bool, Option, List, [], ◌++◌, length, get_or, set, for_range, ltb, if◌then◌else◌,
}
use s3res.Prelude.Int.{ℤ, pos}
use s3res.Sys.{Syscall}
pub mod Lemmas
pub mod Keeps

-- MAX_PIPE_BUFF
abbrev pub max_pipe_buff : ℕ
max_pipe_buff = 4096

-- `struct replicaR`. A count is an unsigned int, and a buffer has `max_pipe_buff` bytes.
pub record ReplicaR : Type 0 where
  pub pinned_cpu : ℤ
  pub priority : ℤ
  pub pid : ℕ
  pub in_pipe_count : ℕ
  pub fd_ins : List ℕ
  pub out_pipe_count : ℕ
  pub fd_outs : List ℕ
  pub buff_counts : List ℕ
  pub buffers : List (List ℕ)

-- The globals. `active_pipe_index` is `none` for -1; `ext_in_bytes` are the `ext_in_bufcnt` first
-- bytes of `ext_in_buffer`; `calls` are the system calls issued so far, oldest first.
pub record Voter : Type 0 where
  pub voting_timeout : ℤ
  pub indexed_pipes : ℕ
  pub timer_start_index : List ℕ
  pub timer_stop_index : List ℕ
  pub replicas : List ReplicaR
  pub for_reps : List ReplicaR
  pub voter_priority : ℤ
  pub rep_count : ℕ
  pub controller_name : String
  pub in_pipe_count : ℕ
  pub out_pipe_count : ℕ
  pub ext_in_fds : List ℕ
  pub rep_info_in : List String
  pub ext_in_bytes : List ℕ
  pub ext_out_fds : List ℕ
  pub rep_info_out : List String
  pub active_pipe_index : Option ℕ
  pub timeout_occurred : Bool
  pub fault_index : ℕ
  pub calls : List Syscall

-- what stands in for an entry out of range
abbrev pub no_replica : ReplicaR
no_replica = record {
  pinned_cpu = pos 0;
  priority = pos 0;
  pid = 0;
  in_pipe_count = 0;
  fd_ins = [];
  out_pipe_count = 0;
  fd_outs = [];
  buff_counts = [];
  buffers = [];
}

-- `replicas[r]`, `replicas[r].buff_counts[p]`, `replicas[r].buffers[p]` and so on
abbrev pub rep_at : List ReplicaR → ℕ → ReplicaR
rep_at reps r = get_or reps r no_replica

abbrev pub count_at : List ReplicaR → ℕ → ℕ → ℕ
count_at reps r p = get_or (rep_at reps r).buff_counts p 0

abbrev pub buffer_at : List ReplicaR → ℕ → ℕ → List ℕ
buffer_at reps r p = get_or (rep_at reps r).buffers p []

abbrev pub fd_in_at : List ReplicaR → ℕ → ℕ → ℕ
fd_in_at reps r p = get_or (rep_at reps r).fd_ins p 0

abbrev pub fd_out_at : List ReplicaR → ℕ → ℕ → ℕ
fd_out_at reps r p = get_or (rep_at reps r).fd_outs p 0

-- an assignment through `reps[r]`
abbrev pub update_rep : List ReplicaR → ℕ → (ReplicaR → ReplicaR) → List ReplicaR
update_rep reps r f = set reps r (f (rep_at reps r))

abbrev pub issue : List Syscall → Voter → Voter
issue new v = record v { calls = v.calls ++ new }
