-- ===== src/FdClient/Tests.antt =====
-- The message from the voter to the replica, for two pipes.
use s3res.Prelude.{ℕ, ◌+◌, ◌<◌, ◌≡◌, refl, true, false, some, List, [], ◌∷◌, get_or, arith}
use s3res.Prelude.Int.{pos}
use s3res.CommTypes.{no_typed_pipe}
use s3res.Sys.{ok}
use s3res.VoteBuff.{VotePipe, no_pipe}
use s3res.FdServer.{send_fds_request}
use s3res.FdClient.{Message, Socket, deliver, connect_recv_fds}
use s3res.FdClient.Delivery.{handed, connect_recv_fds-delivered}

abbrev pipe_of : ℕ → ℕ → VotePipe
pipe_of fd_in fd_out = record {
  rep_info = "MOV_CMD";
  fd_in = fd_in;
  fd_out = fd_out;
  timed = false;
  buff_count = 0;
  buff_index = 0;
  buffer = [];
}

abbrev pipes : List VotePipe
pipes = pipe_of 12 0 ∷ pipe_of 0 15 ∷ []

abbrev renumber : ℕ → ℕ
renumber fd = fd + 3

abbrev socket : Socket
socket = record {
  created = true;
  connected = true;
  received = deliver renumber (send_fds_request pipes 2 (pos 1) (pos 15));
  written = true;
}

-- "Filter"
abbrev name : List ℕ
name = 70 ∷ 105 ∷ 108 ∷ 116 ∷ 101 ∷ 114 ∷ []

connect_recv_fds-delivered_example :
    (m : Message) × (connect_recv_fds socket name 2 ≡ (ok, some m))
    × (m.pinned_cpu ≡ pos 1)
    × (m.priority ≡ pos 15)
    × ((i : ℕ) → i < 2 → get_or m.pipes i no_typed_pipe ≡ handed renumber (get_or pipes i no_pipe))
connect_recv_fds-delivered_example =
    connect_recv_fds-delivered renumber pipes 2 (pos 1) (pos 15) socket name (omega arith) refl refl
      refl refl
