-- ===== src/VoterM/Input.antt =====
-- voter/voterm.c: data from outside comes in (`recvData`) and goes to the replicas (`sendToReps`).
use s3res.Prelude.{
  ℕ, ◌+◌, Bool, true, false, Option, none, some, List, [], ◌∷◌, ◌||◌, take, get_or, length, ltb,
  ◌==◌, for_range, if◌then◌else◌,
}
use s3res.Sys.{ReadResult, failed, got, Syscall, write_to, Wake, fd_isset}
use s3res.VoterM.State.{Voter, fd_in_at, issue}
pub mod Props
pub mod Frame

-- The loop over the external pipes: the first that yields data is the active one.
unfoldable pub recv_scan : List ℕ → Wake → ℕ → List ℕ → Voter → Voter
recv_scan select_set w p [] v = v
recv_scan select_set w p (fd ∷ fds) v =
    let rest = recv_scan select_set w (p + 1) fds v in
    let dry = recv_scan select_set w (p + 1) fds (record v { ext_in_bytes = [] }) in
    if fd_isset select_set w fd
    then elim (w.reads fd) [
      | failed ↦ dry
      | got bytes ↦
          if ltb 0 (length bytes)
          then record v { ext_in_bytes = bytes; active_pipe_index = some p }
          else dry
    ]
    else rest

-- The answer says whether something was received.
unfoldable pub recv_data : Wake → Voter → Bool × Voter
recv_data w v =
    let fds = take v.in_pipe_count v.ext_in_fds in
    let start = record v { active_pipe_index = none } in
    let done = if w.woken then recv_scan fds w 0 fds start else start in
    (elim done.active_pipe_index [ none ↦ false | some _ ↦ true ], done)

-- Is `p` among the first `n` entries from `i` on?
unfoldable pub check_wait_on_input : Voter → Bool
check_wait_on_input v = elim v.active_pipe_index [
  | none ↦ false
  | some active ↦
      for_range v.indexed_pipes 0
        (λ p waiting. if active == get_or v.timer_start_index p 0 then true else waiting) false
]

-- Called with an active pipe only; for -1 the source reads outside its arrays.
unfoldable pub send_to_reps : Voter → Bool × Voter
send_to_reps v = elim v.active_pipe_index [
  | none ↦ (false, v)
  | some active ↦ (
    check_wait_on_input v,
    for_range v.rep_count 0
        (λ r u. issue (write_to (fd_in_at u.replicas r active) u.ext_in_bytes ∷ []) u) v,
  )
]
