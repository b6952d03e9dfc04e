-- ===== src/Controller.antt =====
-- src/controller.c: what the controllers share: the handlers of their signals, and how a controller
-- replaces itself when its voter tells it to.
use s3res.Prelude.{
  ℕ, ◌+◌, Bool, true, false, Option, none, some, List, [], ◌∷◌, ◌++◌, get_or, set, for_range,
  if◌then◌else◌,
}
use s3res.Prelude.Int.{ℤ}
use s3res.Sys.{Syscall, Status, ok, error}
use s3res.CommTypes.{TypedPipe, no_typed_pipe}
use s3res.CommTypes.Convert.{reset_pipe}
use s3res.FdClient.{Message, Socket, connect_recv_fds}
pub mod Restart
mod Tests

-- The globals of a controller; the name is given as its bytes, and the indexes are what its `setPipeIndexes` assigns.
pub record Controller (Indexes : Type 0) : Type 0 where
  pub name : List ℕ
  pub pipes : List TypedPipe
  pub pipe_count : ℕ
  pub pinned_cpu : ℤ
  pub priority : ℤ
  pub indexes : Indexes
  pub insert_sdc : Bool
  pub insert_cfe : Bool

-- The signals that a controller handles: RESTART_SIGNAL, SDC_SIM_SIGNAL and CFE_SIM_SIGNAL.
pub data Handled : Type 0 where
  restart_signal sdc_sim_signal cfe_sim_signal : Handled

-- What fork() makes of the process that called it.
pub data Forked : Type 0 where
  parent child fork_error : Forked

-- The calls on tas_lib: InitTAS() with the cpu and the priority, and RefreshTAS().
pub data Tas : Type 0 where
  init_tas : ℤ → ℤ → Tas
  refresh_tas : Tas

-- A call to sigaction() in `initController`, with whether it succeeds; the signals registered, up to the
-- first failure.
unfoldable pub init_controller : Bool → Bool → Bool → Status × List Handled
init_controller restart_set sdc_set cfe_set =
    if restart_set
    then if sdc_set
      then if cfe_set
        then (ok, restart_signal ∷ sdc_sim_signal ∷ cfe_sim_signal ∷ [])
        else (error, restart_signal ∷ sdc_sim_signal ∷ [])
      else (error, restart_signal ∷ [])
    else (error, [])

-- One round of the loop that resets the pipes, after the calls so far.
abbrev pub reset_round : ℕ → List Syscall × List TypedPipe → List Syscall × List TypedPipe
reset_round index (calls, pipes) =
    let (closes, closed) = reset_pipe (get_or pipes index no_typed_pipe) in
    (calls ++ closes, set pipes index closed)

-- `connectRecvFDS` calls InitTAS() once it has the message.
abbrev pub tas_of : Option Message → List Tas
tas_of none = []
tas_of (some m) = init_tas m.pinned_cpu m.priority ∷ []

-- The calls that the handler makes, and the process after it.
pub record Restarted (Indexes : Type 0) : Type 0 where
  pub closes : List Syscall
  pub unblocked : List Handled
  pub tas : List Tas
  pub state : Controller Indexes

module _ {Indexes : Type 0} where
  abbrev pub test_sdc_handler : Controller Indexes → Controller Indexes
  test_sdc_handler c = record c { insert_sdc = true }

  abbrev pub test_cfe_handler : Controller Indexes → Controller Indexes
  test_cfe_handler c = record c { insert_cfe = true }

  -- The pipes, the cpu and the priority of the message, if one was received.
  abbrev pub with_message : Option Message → Controller Indexes → Controller Indexes
  with_message none c = c
  with_message (some m) c = record c {
    pipes = m.pipes;
    pinned_cpu = m.pinned_cpu;
    priority = m.priority;
  }

  -- The last step of the child: the indexes, if `connectRecvFDS` succeeds.
  abbrev pub with_indexes :
      (List TypedPipe → Indexes → Indexes) → Status → Controller Indexes → Controller Indexes
  with_indexes set_pipe_indexes error c = c
  with_indexes set_pipe_indexes ok c = record c { indexes = set_pipe_indexes c.pipes c.indexes }

  -- The process that the handler returns to. `set_pipe_indexes` is the controller's own.
  unfoldable pub restart_handler :
      (List TypedPipe → Indexes → Indexes)
      → Forked
      → Socket
      → Controller Indexes
      → Restarted Indexes
  restart_handler set_pipe_indexes parent socket c = record {
    closes = [];
    unblocked = [];
    tas = refresh_tas ∷ [];
    state = c;
  }
  restart_handler set_pipe_indexes fork_error socket c = record {
    closes = [];
    unblocked = [];
    tas = [];
    state = c;
  }
  restart_handler set_pipe_indexes child socket c =
      let (closes, pipes) = for_range c.pipe_count 0 reset_round ([], c.pipes) in
      let (status, received) = connect_recv_fds socket c.name c.pipe_count in
      record {
        closes = closes;
        unblocked = restart_signal ∷ sdc_sim_signal ∷ cfe_sim_signal ∷ [];
        tas = tas_of received;
        state =
            with_indexes set_pipe_indexes status
              (with_message received (record c { pipes = pipes }));
      }
