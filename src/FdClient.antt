-- ===== src/FdClient.antt =====
-- src/fd_client.c: a replica asks its voter for its pipes.
use s3res.Prelude.{
  ℕ, ◌+◌, Bool, Option, none, some, List, [], ◌∷◌, ◌++◌, get_or, set, map, for_range, ltb, length,
  ◌&&◌, ◌==◌, if◌then◌else◌,
}
use s3res.Prelude.Int.{ℤ}
use s3res.CommTypes.{TypedPipe, no_typed_pipe}
use s3res.Sys.{Syscall, send_fds, Status, ok, error}
pub mod Delivery
mod Tests

-- A message as recvmsg() stores it, for a client that asks for as many pipes as are sent: the entries,
-- the cpu, the priority, and the descriptors, which the kernel has numbered anew for this process.
pub record Message : Type 0 where
  pub pipes : List TypedPipe
  pub pinned_cpu : ℤ
  pub priority : ℤ
  pub fds : List ℕ

-- What the calls on the socket answer: socket(), connect(), recvmsg() and write().
pub record Socket : Type 0 where
  pub created : Bool
  pub connected : Bool
  pub received : Option Message
  pub written : Bool

-- What the kernel makes of a sendmsg(): `dup` numbers the descriptors anew.
abbrev pub deliver : (ℕ → ℕ) → Syscall → Option Message
deliver dup (send_fds pipes pinned_cpu priority fds) =
    some (record { pipes = pipes; pinned_cpu = pinned_cpu; priority = priority; fds = map dup fds })
deliver dup _ = none

-- One round of the loop that puts the new descriptors into the entries.
abbrev pub with_fd : List ℕ → ℕ → TypedPipe → TypedPipe
with_fd fds i pipe =
    if pipe.fd_in == 0
    then record pipe { fd_out = get_or fds i 0 }
    else record pipe { fd_in = get_or fds i 0 }

-- `none` for -1.
unfoldable pub request_fds : Socket → ℕ → Option Message
request_fds s pipe_count = elim s.received [
  | none ↦ none
  | some m ↦ some (record m {
    pipes =
        for_range pipe_count 0
          (λ i pipes. set pipes i (with_fd m.fds i (get_or pipes i no_typed_pipe))) m.pipes;
  })
]

-- the length of the name of the socket: "./", the name of the component, "_fd_server"
abbrev pub actual_length : List ℕ → ℕ
actual_length name = 2 + length name + 10

-- The status, and the message if one was received. The name of the component is given as its bytes.
unfoldable pub connect_recv_fds : Socket → List ℕ → ℕ → Status × Option Message
connect_recv_fds s name pipe_count =
    let failed : Status × Option Message = (error, none) in
    if s.created
    then if ltb (actual_length name) 200 && s.connected
      then elim (request_fds s pipe_count) [
        | none ↦ failed
        | some m ↦ (if s.written then ok else error, some m)
      ]
      else failed
    else failed
