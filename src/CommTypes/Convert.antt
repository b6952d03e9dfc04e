-- ===== src/CommTypes/Convert.antt =====
-- src/commtypes.c: pipes of the voter as typed pipes, and back; a typed pipe is cleared.
use s3res.Prelude.{
  ℕ, ◌<◌, ◌≤◌, ◌≡◌, ap, ◌∙◌, List, [], ◌∷◌, ◌++◌, ◌==◌, if◌then◌else◌, get_or, set, length,
  for_range, for_range-set,
}
use s3res.CommTypes.{TypedPipe, comm_error, message_t, comm_to_enum, no_typed_pipe}
use s3res.CommTypes.Names.{comm_to_enum-message_t}
use s3res.Sys.{Syscall, close_fd}
use s3res.VoteBuff.{VotePipe, no_pipe}

-- `resetPipe`
unfoldable pub reset_pipe : TypedPipe → List Syscall × TypedPipe
reset_pipe pipe = (
  (if pipe.fd_in == 0 then [] else close_fd pipe.fd_in ∷ [])
      ++ (if pipe.fd_out == 0 then [] else close_fd pipe.fd_out ∷ []),
  record { type = comm_error; fd_in = 0; fd_out = 0 },
)

-- the assignments of one round of `convertTypedToVote`
abbrev pub to_vote : TypedPipe → VotePipe → VotePipe
to_vote ext pipe = record pipe {
  fd_in = ext.fd_in;
  fd_out = ext.fd_out;
  rep_info = message_t ext.type;
}

unfoldable pub convert_typed_to_vote : List TypedPipe → ℕ → List VotePipe → List VotePipe
convert_typed_to_vote ext_pipes pipe_count new_pipes =
    for_range pipe_count 0
      (λ i pipes. set pipes i (to_vote (get_or ext_pipes i no_typed_pipe) (get_or pipes i no_pipe)))
      new_pipes

-- the assignments of one round of `convertVoteToTyped`
abbrev pub to_typed : VotePipe → TypedPipe
to_typed ext = record { type = comm_to_enum ext.rep_info; fd_in = ext.fd_in; fd_out = ext.fd_out }

unfoldable pub convert_vote_to_typed : List VotePipe → ℕ → List TypedPipe → List TypedPipe
convert_vote_to_typed ext_pipes pipe_count new_pipes =
    for_range pipe_count 0 (λ i pipes. set pipes i (to_typed (get_or ext_pipes i no_pipe)))
      new_pipes

pub convert_vote_to_typed-at :
    (ext : List VotePipe) (n : ℕ) (new : List TypedPipe) (i : ℕ)
    → n ≤ length new
    → i < n
    → get_or (convert_vote_to_typed ext n new) i no_typed_pipe ≡ to_typed (get_or ext i no_pipe)
unfolding convert_vote_to_typed
convert_vote_to_typed-at ext n new i h i_in =
    for_range-set n (λ i _. to_typed (get_or ext i no_pipe)) new no_typed_pipe h i i_in

pub convert_typed_to_vote-at :
    (ext : List TypedPipe) (n : ℕ) (new : List VotePipe) (i : ℕ)
    → n ≤ length new
    → i < n
    → get_or (convert_typed_to_vote ext n new) i no_pipe
      ≡ to_vote (get_or ext i no_typed_pipe) (get_or new i no_pipe)
unfolding convert_typed_to_vote
convert_typed_to_vote-at ext n new i h i_in =
    for_range-set n (λ i pipe. to_vote (get_or ext i no_typed_pipe) pipe) new no_pipe h i i_in

-- Typed pipes that are converted to pipes of the voter and back are the same pipes, type and
-- descriptors, at each place, if the arrays have room for them.
pub convert_round_trip :
    (ext : List TypedPipe) (n : ℕ) (votes : List VotePipe) (new : List TypedPipe) (i : ℕ)
    → n ≤ length votes
    → n ≤ length new
    → i < n
    → get_or (convert_vote_to_typed (convert_typed_to_vote ext n votes) n new) i no_typed_pipe
      ≡ get_or ext i no_typed_pipe
convert_round_trip ext n votes new i room room' i_in =
    convert_vote_to_typed-at (convert_typed_to_vote ext n votes) n new i room' i_in
    ∙ ap to_typed (convert_typed_to_vote-at ext n votes i room i_in)
    ∙ ap (λ t. record (get_or ext i no_typed_pipe) { type = t })
        (comm_to_enum-message_t (get_or ext i no_typed_pipe).type)
