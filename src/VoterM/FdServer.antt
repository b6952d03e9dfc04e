-- ===== src/VoterM/FdServer.antt =====
-- voter/fd_serverm.c: hands a new replica its pipes over a socket, and learns its pid.
use Prim.Native.String.{String}
use s3res.Prelude.{
  ℕ, zero, suc, ◌+◌, Bool, Option, none, List, [], ◌∷◌, ◌++◌, get_or, if◌then◌else◌,
}
use s3res.CommTypes.{TypedPipe, comm_to_enum}
use s3res.Sys.{Syscall, send_fds, Client}
use s3res.VoterM.State.{ReplicaR}
pub mod Message

-- The two loops of `sendFDS` that fill `send_pipes`, the replica's ends of its pipes.
unfoldable pub send_pipes_in : ℕ → ℕ → List ℕ → List String → List TypedPipe
send_pipes_in zero i fds info = []
send_pipes_in (suc n) i fds info =
    record { type = comm_to_enum (get_or info i ""); fd_in = get_or fds i 0; fd_out = 0 }
    ∷ send_pipes_in n (i + 1) fds info

unfoldable pub send_pipes_out : ℕ → ℕ → List ℕ → List String → List TypedPipe
send_pipes_out zero i fds info = []
send_pipes_out (suc n) i fds info =
    record { type = comm_to_enum (get_or info i ""); fd_in = 0; fd_out = get_or fds i 0 }
    ∷ send_pipes_out n (i + 1) fds info

-- The descriptors that go out of band, in the same order.
unfoldable pub cmsg_fds : ℕ → ℕ → List ℕ → List ℕ
cmsg_fds zero i fds = []
cmsg_fds (suc n) i fds = get_or fds i 0 ∷ cmsg_fds n (i + 1) fds

pub send_fds_call : ReplicaR → List String → List String → Syscall
send_fds_call rep rep_info_in rep_info_out =
    send_fds
      (send_pipes_in rep.in_pipe_count 0 rep.fd_ins rep_info_in
        ++ send_pipes_out rep.out_pipe_count 0 rep.fd_outs rep_info_out)
      rep.pinned_cpu rep.priority
      (cmsg_fds rep.in_pipe_count 0 rep.fd_ins ++ cmsg_fds rep.out_pipe_count 0 rep.fd_outs)

-- `none` for -1, else the pid; sendmsg() is issued only on an accepted connection.
-- The connection itself, and its close(), are left out.
unfoldable pub accept_send_fds :
    Client → ReplicaR → List String → List String → Option ℕ × List Syscall
unfolding send_fds_call
accept_send_fds c rep rep_info_in rep_info_out =
    if c.accepted
    then (if c.sent then c.pid else none, send_fds_call rep rep_info_in rep_info_out ∷ [])
    else (none, [])
