-- ===== src/FdClient/Delivery.antt =====
-- From the voter to the replica: what the server sends is what the client gets.
use s3res.Prelude.{
  ℕ, zero, suc, ◌+◌, ◌<◌, ◌≡◌, refl, ap, ◌∙◌, true, some, List, map, get_or, length,
  length-replicate, replicate, for_range-set, arith, if◌then◌else◌, ◌==◌, for_range, length-set,
  for_range_inv, set,
}
use s3res.Prelude.Int.{ℤ}
use s3res.CommTypes.{TypedPipe, no_typed_pipe, comm_to_enum}
use s3res.CommTypes.Convert.{to_typed, convert_vote_to_typed, convert_vote_to_typed-at}
use s3res.Sys.{ok}
use s3res.VoteBuff.{VotePipe, no_pipe}
use s3res.FdServer.{own_end, own_ends, send_fds_request}
use s3res.FdClient.{Message, Socket, deliver, with_fd, request_fds, actual_length, connect_recv_fds}

get_or-own_ends :
    (dup : ℕ → ℕ) (n k i : ℕ) (pipes : List VotePipe)
    → i < n
    → get_or (map dup (own_ends n k pipes)) i 0 ≡ dup (own_end (get_or pipes (k + i) no_pipe))
unfolding own_ends
get_or-own_ends dup zero k i pipes h = absurd (omega arith)
get_or-own_ends dup (suc n) k zero pipes h =
    ap (λ j. dup (own_end (get_or pipes j no_pipe))) (omega arith)
get_or-own_ends dup (suc n) k (suc i) pipes h =
    get_or-own_ends dup n (k + 1) i pipes (omega arith)
    ∙ ap (λ j. dup (own_end (get_or pipes j no_pipe))) (omega arith)

length-convert :
    (ext : List VotePipe) (n : ℕ) (new : List TypedPipe)
    → length (convert_vote_to_typed ext n new) ≡ length new
unfolding convert_vote_to_typed
length-convert ext n new =
    for_range_inv (λ _ ys. length ys ≡ length new)
      (λ i pipes. set pipes i (to_typed (get_or ext i no_pipe))) n 0 n new (omega arith)
      (λ k ys _ _ e. length-set ys k _ ∙ e) refl

-- the message of the server
abbrev delivered : (ℕ → ℕ) → List VotePipe → ℕ → ℤ → ℤ → Message
delivered dup pipes n pinned_cpu priority = record {
  pipes = convert_vote_to_typed pipes n (replicate n no_typed_pipe);
  pinned_cpu = pinned_cpu;
  priority = priority;
  fds = map dup (own_ends n 0 pipes);
}

-- The pipe of the replica: of the type that is written in the voter's pipe, with the replica's own
-- number of the same end, on the same side.
abbrev pub handed : (ℕ → ℕ) → VotePipe → TypedPipe
handed dup pipe =
    if pipe.fd_in == 0
    then record { type = comm_to_enum pipe.rep_info; fd_in = 0; fd_out = dup pipe.fd_out }
    else record { type = comm_to_enum pipe.rep_info; fd_in = dup pipe.fd_in; fd_out = pipe.fd_out }

handed_lem :
    (dup : ℕ → ℕ) (fds : List ℕ) (i : ℕ) (pipe : VotePipe)
    → get_or fds i 0 ≡ dup (own_end pipe)
    → with_fd fds i (to_typed pipe) ≡ handed dup pipe
handed_lem dup fds i pipe e = ground arith

-- A client whose calls all succeed, whose socket's name has fewer than 200 bytes, with the message that
-- the server has sent, and that asks for as many pipes as the server has sent, gets the cpu and the priority that were sent and, at each place, the replica's end of the pipe that stands
-- there, with the type that the pipe's text names, on the side on which the server had it.
pub connect_recv_fds-delivered :
    (dup : ℕ → ℕ) (pipes : List VotePipe) (n : ℕ) (pinned_cpu priority : ℤ) (s : Socket)
    (name : List ℕ)
    → actual_length name < 200
    → s.created ≡ true
    → s.connected ≡ true
    → s.received ≡ deliver dup (send_fds_request pipes n pinned_cpu priority)
    → s.written ≡ true
    → (m : Message) × (connect_recv_fds s name n ≡ (ok, some m))
      × (m.pinned_cpu ≡ pinned_cpu)
      × (m.priority ≡ priority)
      × ((i : ℕ) → i < n → get_or m.pipes i no_typed_pipe ≡ handed dup (get_or pipes i no_pipe))
unfolding connect_recv_fds request_fds send_fds_request
connect_recv_fds-delivered dup pipes n pinned_cpu priority s name short created connected received
      written =
    let sent = delivered dup pipes n pinned_cpu priority in
    (
      record sent {
        pipes =
            for_range n 0 (λ i ps. set ps i (with_fd sent.fds i (get_or ps i no_typed_pipe)))
              sent.pipes;
      },
      ground (arith, short, created, connected, received, written),
      refl,
      refl,
      (λ i i_in.
          for_range-set n (with_fd sent.fds) sent.pipes no_typed_pipe
            (omega (
              arith,
              length-convert pipes n (replicate n no_typed_pipe),
              length-replicate {A = TypedPipe} n no_typed_pipe,
            ))
            i i_in
          ∙ ap (with_fd sent.fds i) (
              convert_vote_to_typed-at pipes n (replicate n no_typed_pipe) i
                (omega (arith, length-replicate {A = TypedPipe} n no_typed_pipe)) i_in)
          ∙ handed_lem dup sent.fds i (get_or pipes i no_pipe) (
              get_or-own_ends dup n 0 i pipes i_in
              ∙ ap (λ j. dup (own_end (get_or pipes j no_pipe))) (omega arith))),
    )
