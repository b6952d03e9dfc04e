-- ===== src/VoterM/Input/Frame.antt =====
-- What `recvData` leaves alone: everything but the active pipe and the bytes received.
use s3res.Prelude.{
  ℕ, ◌+◌, ◌≡◌, refl, ◌∙◌, Bool-cases, inl, inr, Option, none, some, false, arith, List, [], ◌∷◌,
  take, length, ltb,
}
use s3res.Sys.{Wake, fd_isset}
use s3res.VoterM.State.{Voter}
use s3res.VoterM.Input.{recv_scan, recv_data}
use s3res.VoterM.Input.Props.{ReadResult-cases, recv_woken}

abbrev pub Received : Voter → Voter → Type 0
Received v u =
    (active : Option ℕ) × (bytes : List ℕ) × (u
      ≡ record v { ext_in_bytes = bytes; active_pipe_index = active })

recv_scan-Received :
    (select_set : List ℕ) (w : Wake) (p : ℕ) (fds : List ℕ) (v : Voter)
    → Received v (recv_scan select_set w p fds v)
unfolding recv_scan
recv_scan-Received select_set w p [] v = (v.active_pipe_index, v.ext_in_bytes, refl)
recv_scan-Received select_set w p (fd ∷ fds) v =
    let (a, b, rest) = recv_scan-Received select_set w (p + 1) fds v in
    let (a', b', dry) =
      recv_scan-Received select_set w (p + 1) fds (record v { ext_in_bytes = [] }) in
    elim (Bool-cases (fd_isset select_set w fd)) [
      | inr e ↦ (a, b, rw e rest)
      | inl e ↦ elim (ReadResult-cases (w.reads fd)) [
        | inl bad ↦ (a', b', rw (e, bad) dry)
        | inr (bytes, read) ↦ elim (Bool-cases (ltb 0 (length bytes))) [
          | inl some_bytes ↦ (some p, bytes, rw (e, read, some_bytes) refl)
          | inr no_bytes ↦ (a', b', rw (e, read, no_bytes) dry)
        ]
      ]
    ]

pub recv_data-Received : (w : Wake) (v : Voter) → Received v (recv_data w v).1
unfolding recv_data
recv_data-Received w v =
    let fds = take v.in_pipe_count v.ext_in_fds in
    let (a, b, e) = recv_scan-Received fds w 0 fds (record v { active_pipe_index = none }) in
    elim (Bool-cases w.woken) [
      | inl woken ↦ (a, b, recv_woken w v woken ∙ e)
      | inr asleep ↦ (none, v.ext_in_bytes, recv_asleep asleep)
    ]
  where
    recv_asleep : w.woken ≡ false → (recv_data w v).1 ≡ record v { active_pipe_index = none }
    recv_asleep asleep = ground arith
