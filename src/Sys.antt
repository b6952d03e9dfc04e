-- ===== src/Sys.antt =====
-- What the voters take from the C library and the kernel. A call's result is an argument of the
-- operation that makes the call; the calls that an operation issues are part of its result.
use s3res.Prelude.{
  ℕ, suc, Bool, true, false, Option, ◌&&◌, ◌||◌, List, [], ◌∷◌, ◌==◌, ltb, if◌then◌else◌,
}
use s3res.Prelude.Int.{ℤ}
use s3res.CommTypes.{TypedPipe}
pub mod Memcmp
pub mod Writes

-- What read() does: -1, or the bytes that it stores (none at the end of the file).
pub data ReadResult : Type 0 where
  failed : ReadResult
  got : List ℕ → ReadResult

-- The return value of a function of the source that answers 0 or -1.
pub data Status : Type 0 where
  ok error : Status

-- The signals that the voters send.
pub data Signal : Type 0 where
  sigkill restart_signal : Signal

-- A system call that is issued. Processes and descriptors are numbers; texts are their bytes.
-- `send_fds` is the sendmsg() of the descriptor servers: the pipes, the cpu, the priority and the
-- descriptors that travel out of band; `set_policy` is tas_lib's sched_set_policy(), of a process
-- and a priority; `write_past` is a write() of more bytes than the array holds that it is given: what
-- leaves the program then is memory behind the array.
pub data Syscall : Type 0 where
  write_to : ℕ → List ℕ → Syscall
  write_past : ℕ → List ℕ → ℕ → Syscall
  close_fd : ℕ → Syscall
  kill_pid : ℤ → Signal → Syscall
  reap : Syscall
  fork_exec : List (List ℕ) → Syscall
  send_fds : List TypedPipe → ℤ → ℤ → List ℕ → Syscall
  set_policy : ℤ → ℤ → Syscall

-- What the kernel answers when the program sleeps in select(): how long after the watchdog was set
-- it went to sleep (in whole microseconds, rounded up), whether select() returned a positive
-- number, which of the descriptors asked for it left in the set, and what a read() of each yields.
pub record Wake : Type 0 where
  pub elapsed : ℕ
  pub woken : Bool
  pub ready : ℕ → Bool
  pub reads : ℕ → ReadResult

-- What the socket calls answer: accept() and sendmsg() succeed or not, and the client writes its
-- pid or breaks off.
pub record Client : Type 0 where
  pub accepted : Bool
  pub sent : Bool
  pub pid : Option ℕ

-- Is a descriptor in a list of descriptors?
unfoldable pub fd_set_has : List ℕ → ℕ → Bool
fd_set_has [] fd = false
fd_set_has (x ∷ xs) fd = x == fd || fd_set_has xs fd

-- FD_ISSET() after select() on the given set
abbrev pub fd_isset : List ℕ → Wake → ℕ → Bool
fd_isset select_set w fd = fd_set_has select_set fd && w.ready fd

-- The sign of memcmp()'s result.
pub data MemCmp : Type 0 where
  below same above : MemCmp

-- memcmp() on two byte ranges, as far as both reach.
unfoldable pub memcmp : List ℕ → List ℕ → ℕ → MemCmp
memcmp (x ∷ xs) (y ∷ ys) (suc n) =
    if x == y then memcmp xs ys n else if ltb x y then below else above
memcmp _ _ _ = same

-- `result != 0`
abbrev pub differs : MemCmp → Bool
differs same = false
differs below = true
differs above = true
