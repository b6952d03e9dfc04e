-- ===== src/FdServer.antt =====
-- src/fd_server.c: the server that hands a new replica its pipes, for the voters that keep
-- `struct vote_pipe`.
use s3res.Prelude.{
  ℕ, zero, suc, ◌+◌, none, some, List, [], ◌∷◌, get_or, replicate, ◌==◌, if◌then◌else◌,
}
use s3res.Prelude.Int.{ℤ, pos}
use s3res.CommTypes.{no_typed_pipe}
use s3res.CommTypes.Convert.{convert_vote_to_typed}
use s3res.Sys.{Syscall, send_fds, Client, Status, ok, error}
use s3res.VoteBuff.{VotePipe, no_pipe}

-- The replica's end of a pipe.
abbrev pub own_end : VotePipe → ℕ
own_end pipe = if pipe.fd_in == 0 then pipe.fd_out else pipe.fd_in

-- The descriptors that go out of band: of `n` pipes from `i` on.
unfoldable pub own_ends : ℕ → ℕ → List VotePipe → List ℕ
own_ends zero i pipes = []
own_ends (suc n) i pipes = own_end (get_or pipes i no_pipe) ∷ own_ends n (i + 1) pipes

-- `sendFDS`: the array for the typed pipes is all filled, whatever it holds at first.
unfoldable pub send_fds_request : List VotePipe → ℕ → ℤ → ℤ → Syscall
send_fds_request pipes pipe_count pinned_cpu priority =
    send_fds (convert_vote_to_typed pipes pipe_count (replicate pipe_count no_typed_pipe))
      pinned_cpu priority (own_ends pipe_count 0 pipes)

-- `acceptSendFDS`: the pid is assigned only when the client has told it.
unfoldable pub accept_send_fds :
    Client → ℤ → List VotePipe → ℕ → ℤ → ℤ → (Status × ℤ) × List Syscall
accept_send_fds c pid pipes pipe_count pinned_cpu priority =
    let told : Status × ℤ = elim c.pid [ none ↦ (error, pid) | some new ↦ (ok, pos new) ] in
    if c.accepted
    then (
      if c.sent then told else (error, pid),
      send_fds_request pipes pipe_count pinned_cpu priority ∷ [],
    )
    else ((error, pid), [])
