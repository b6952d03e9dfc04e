-- ===== src/Lib.antt =====
-- S3RES runs the controllers of a robot as redundant processes. A voter stands between a controller and
-- the rest of the system: it hands each input to every replica, waits for their answers, compares them,
-- sends one answer on, and restarts a replica that is faulty. This library models the voters and what
-- they stand on, and two of the controllers: the mapper, which tells the planner of the obstacles that
-- the sensors see, and the planner, which searches for a path to the goal.
--
-- Files and code:
--   Sys          the system calls and the C library, as far as the code relies on them: what a call
--                answers is an argument of the operation that makes it, the calls it issues are part of
--                its result. A `Wake` is one sleep in select().
--   CommTypes    include/commtypes.h, src/commtypes.c: message types (commToEnum is `comm_to_enum`),
--                Convert, typed pipes as pipes of the voters and back, MapUpdate and MsgBuffer, the
--                messages of variable length, Structs, the messages that are structs.
--   VoteBuff     include/vote_buff.h, voter/vote_buff.c: the ring buffer of a pipe. `VotePipe` is struct
--                vote_pipe; pipeToBuff is `pipe_to_buff`, buffToPipe `buff_to_pipe`, and so on.
--                VoteBuff/Fifo is what a client may expect.
--   VoterM       voter/voterm.c, voter/voterm.h, voter/fd_serverm.c: the voter for replicas that run in
--                parallel. VoterM/State has the globals as the record `Voter`. Init is initVoterM; what
--                malloc() gives is a parameter, `Memory`. One module for each stage:
--                Input (recvData, sendToReps), Collect (collectFromReps, findFaultReplica), Vote
--                (checkSDC), Recover (killAndClean, forkReplicas, startReplicas), FdServer (sendFDS,
--                acceptSendFDS), Send (sendData); Turn is one turn of the loop in main as it is compiled
--                for QUAD_CORE, and Single is sendCollect and the turn for SINGLE_CORE. Answered and Missing
--                under Single are lemmas.
--   FdServer     src/fd_server.c: sendFDS and acceptSendFDS, for the voters that keep struct vote_pipe.
--   FdClient     src/fd_client.c: requestFDS and connectRecvFDS, the replica's side of the same message.
--   Replicas     include/replicas.h, src/replicas.c: `Replica` is struct replica, `Fleet` the array and
--                the calls so far, `Kernel` what the kernel and the new processes answer. Count has
--                bytesReady, aheadRep, behindRep and rep_gap, Balance has balanceReps, Restart the
--                functions that start and restart replicas.
--   VoterD       voter/voterd.c: the voter that votes on each pipe as soon as all replicas have written
--                to it. `Desktop` is its globals. Data has processData and sendPipe, Vote checkSDC and
--                processFromRep, Recover restart_prep and voterRestartHandler, Update doOneUpdate and
--                the loop of main, Init initVoterD.
--   VoterS       voter/voters.c: the voter for one replica, which it restarts when it dies. `Sequential` is
--                its globals; the functions keep their names.
--   Controller   src/controller.c: what the controllers share. `restart_handler` is restartHandler, on the
--                answer of fork(), the socket of the voter and the globals; setPipeIndexes is a parameter.
--   Mapping      controllers/mapping.c, controllers/inc/mapping.h: `Node` and `LList` are the pointers to
--                struct node_t and struct l_list_t, NULL included; addNode is `add_node`, and so on. Grid
--                has gridify and degridify. Count is how often a list holds a place, Order the order of
--                the scores.
--   AStar        controllers/a_star.c: Search has genNeighbors and command, Waypoints sendWaypoints, Loop
--                setPipeIndexes and a round of enterLoop. Neighbors, Unclosed, Visit, Round, Decides, Path
--                and Safe are the proofs.
--   Mapper       controllers/mapper.c: addObstacle, updateMap and a round of enterLoop. `Sightings` is the
--                map of counts and the message. Announce, Scan and Resend are on what it lists, Restart
--                on the planner that receives it.
--   Plumber      plumber/plumbing.c, plumber/plumbing.h: the components and the pipes between them. A pointer
--                to a node is its place in the list. What malloc() leaves in the `current` at the end of the
--                list, which the code tests for NULL, is a parameter, `Current`.
--   Runs         how an operation of VoterD and VoterS ends: it goes on, exits, or breaks.
--   Prelude      lists, counted loops (`for_range` is a `for` over an index), sums, signed numbers.
--
-- How the model runs: an operation takes the state and gives the new one; a loop with a counter is
-- `for_range`; the loop of collectFromReps recurs on the list of its sleeps, and gives `none` when the
-- list ends while it still waits. Exit is an outcome of its own. An index out of range reads a
-- stand-in and writes nothing.
--
-- Bounds: the counters of a pipe are natural numbers; where C would go below zero, `fake_to_pipe` gives
-- `none`. A count in `ReplicaR` is unsigned, and a read() that fails leaves 2^32 - 1 in it. Time is in
-- whole microseconds. There are two bounds on recursions. The digits of a number: one more than the
-- number, which is enough by Replicas/Argv. The rounds of the planner's search: one more than the grid has
-- places, which is enough by AStar/Decides, as each round but the last closes one more place.
--
-- The doubles of the controllers are a parameter, `Doubles`: any type with the operations that the code
-- uses, of which no law is assumed but the order of the scores in Mapping/Order. Where the planner or
-- the mapper would access an array outside its bounds or follow a null pointer, the model stops with that
-- outcome. In the planner's search the code does follow a null pointer on some maps (AStar/Tests has one),
-- so the statements on the search name that outcome too.
--
-- The write() of sendData in voter/voterm.c takes the count as it is: where it is more than the buffer
-- holds, as after a failed read(), the model issues `write_past` in place of `write_to`. The loop without an end that an injected
-- control-flow error enters is an outcome of the rounds of the planner and of the mapper.
--
-- restart_prep of voter/voterd.c frees ten entries of an array that has one for each pipe. `restart_prep`
-- ends before this loop: the statements on VoterD are about the behaviour up to there, or with ten pipes.
--
-- Not modelled: the controllers other than the planner and the mapper; of these two the parsing of the
-- arguments and the start in main, and of the planner eraseAllButList, which only frees memory; of the plumber
-- launch_node and the parser; parseArgs of the voters but for the timers of VoterD; of src/commtypes.c serializePipe and
-- deserializePipe, and how the structs that are sent lie in memory. Vendored code (include/ccv.h),
-- tas_lib, fault injection, tests and scripts are left out: they are system calls, assembly or glue.
pub mod Prelude
pub mod CommTypes
pub mod Sys
pub mod VoteBuff
pub mod AStar
pub mod Controller
pub mod FdClient
pub mod FdServer
pub mod Mapper
pub mod Mapping
pub mod Plumber
pub mod Replicas
pub mod Runs
pub mod VoterD
pub mod VoterM
pub mod VoterS
