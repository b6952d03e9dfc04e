-- ===== src/VoterD.antt =====
-- voter/voterd.c: the voter for the desktop, which keeps a ring buffer for each pipe of a replica and
-- votes on a pipe as soon as all replicas have written to it. Its globals, and how it goes on.
use Prim.Native.String.{String}
use s3res.Prelude.{ℕ, zero, suc, ◌+◌, Bool, List, get_or}
use s3res.Prelude.Int.{ℤ}
use s3res.Sys.{Syscall, ReadResult, Wake}
use s3res.VoteBuff.{VotePipe, no_pipe}
use s3res.VoteBuff.RepType.{Replication}
use s3res.Replicas.{Replica, Fleet, Kernel, call}
pub mod Data
pub mod Recover
pub mod Vote
pub mod Update
pub mod Init
pub mod Send
pub mod Majority
pub mod Masking
pub mod Twins
pub mod Valid
mod Tests

-- The globals. The watchdog is the time of the last start of the timer: a `Wake` says how long ago
-- that is. `fleet` are the replicas and the system calls issued so far.
pub record Desktop : Type 0 where
  pub voting_timeout : ℤ
  pub current_timer : ℕ
  pub timer_start_index : List ℕ
  pub timer_stop_index : List ℕ
  pub timer_started : Bool
  pub fleet : Fleet
  pub voter_priority : ℤ
  pub replica_priority : ℤ
  pub rep_type : Replication
  pub rep_count : ℕ
  pub controller_name : String
  pub pipe_count : ℕ
  pub ext_pipes : List VotePipe

-- What the environment answers. `read` and `steal` are asked at a time, counted in the system calls
-- issued before: what a read() of a descriptor yields, and what `stealPipes` finds.
pub record World : Type 0 where
  pub kernel : Kernel
  pub read : ℕ → ℕ → ReadResult
  pub steal : ℕ → Wake

-- `ext_pipes[p]`
abbrev pub ext_of : Desktop → ℕ → VotePipe
ext_of d p = get_or d.ext_pipes p no_pipe

-- a change of the replicas and of nothing else
abbrev pub on_fleet : (Fleet → Fleet) → Desktop → Desktop
on_fleet f d = record d { fleet = f d.fleet }
