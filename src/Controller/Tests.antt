-- ===== src/Controller/Tests.antt =====
-- A controller with two pipes that is restarted.
use s3res.Prelude.{ℕ, ◌+◌, ◌<◌, ◌≡◌, refl, true, false, none, List, [], ◌∷◌, get_or, arith}
use s3res.Prelude.Int.{pos}
use s3res.CommTypes.{TypedPipe, no_typed_pipe, mov_cmd, range_pose_data}
use s3res.VoteBuff.{VotePipe, no_pipe}
use s3res.FdServer.{send_fds_request}
use s3res.FdClient.{Socket, deliver}
use s3res.FdClient.Delivery.{handed}
use s3res.Controller.{Controller, child, init_tas, restart_handler}
use s3res.Controller.Restart.{all_closes, restart_handler-delivered}

abbrev pipe_of : ℕ → ℕ → VotePipe
pipe_of fd_in fd_out = record {
  rep_info = "MOV_CMD";
  fd_in = fd_in;
  fd_out = fd_out;
  timed = false;
  buff_count = 0;
  buff_index = 0;
  buffer = [];
}

abbrev handed_out : List VotePipe
handed_out = pipe_of 12 0 ∷ pipe_of 0 15 ∷ []

abbrev renumber : ℕ → ℕ
renumber fd = fd + 3

abbrev answering : Socket
answering = record {
  created = true;
  connected = true;
  received = deliver renumber (send_fds_request handed_out 2 (pos 1) (pos 15));
  written = true;
}

abbrev silent : Socket
silent = record { created = true; connected = false; received = none; written = false }

-- Its indexes are the number of its pipe that moves the robot.
abbrev controller : Controller ℕ
controller = record {
  name = 70 ∷ 105 ∷ 108 ∷ 116 ∷ 101 ∷ 114 ∷ [];
  pipes =
      record { type = range_pose_data; fd_in = 4; fd_out = 0 }
      ∷ record { type = mov_cmd; fd_in = 0; fd_out = 5 }
      ∷ [];
  pipe_count = 2;
  pinned_cpu = pos 2;
  priority = pos 10;
  indexes = 1;
  insert_sdc = false;
  insert_cfe = false;
}

abbrev first_index : List TypedPipe → ℕ → ℕ
first_index pipes index = 0

restart_handler-delivered_example :
    (let r = restart_handler first_index child answering controller in
      (r.closes ≡ all_closes 2 0 controller.pipes)
      × (r.tas ≡ init_tas (pos 1) (pos 15) ∷ [])
      × (r.state.pinned_cpu ≡ pos 1)
      × (r.state.priority ≡ pos 15)
      × ((i : ℕ)
          → i < 2
          → get_or r.state.pipes i no_typed_pipe ≡ handed renumber (get_or handed_out i no_pipe))
      × (r.state.indexes ≡ first_index r.state.pipes 1))
restart_handler-delivered_example =
    restart_handler-delivered first_index controller renumber handed_out (pos 1) (pos 15) answering
      (omega arith) (omega arith) refl refl refl refl
