-- ===== src/VoterM/Input/Props.antt =====
-- Which input is taken, and what the replicas get of it.
use s3res.Prelude.{
  ℕ, zero, suc, ◌+◌, ◌<◌, ◌≡◌, subst, refl, sym, ap, ◌∙◌, ◌↔◌, true, false, Bool-cases, ◌⊎◌, inl,
  inr, none, some, for_range, for_range_inv, arith, if◌then◌else◌, List, [], ◌∷◌, ◌++◌, length,
  get_or, take, ltb, lt-cases, ◌==◌, ==_iff, append-nil, append_assoc,
}
use s3res.Sys.{ReadResult, failed, got, Syscall, write_to, Wake, fd_isset}
use s3res.VoterM.State.{Voter, fd_in_at, issue}
use s3res.VoterM.Input.{recv_scan, recv_data, check_wait_on_input, send_to_reps}

-- the bytes that a read() stores
abbrev bytes_of : ReadResult → List ℕ
bytes_of failed = []
bytes_of (got bytes) = bytes

-- the bytes that are to be had from a descriptor behind select()
abbrev pub yields : List ℕ → Wake → ℕ → List ℕ
yields select_set w fd = if fd_isset select_set w fd then bytes_of (w.reads fd) else []

-- Of `fds`, the descriptors before the place `j` yield nothing.
abbrev pub SilentTo : List ℕ → Wake → List ℕ → ℕ → Type 0
SilentTo select_set w fds j = (i : ℕ) → i < j → yields select_set w (get_or fds i 0) ≡ []

-- What the scan from the pipe `p` on leaves.
abbrev Scanned : List ℕ → Wake → ℕ → List ℕ → Voter → Voter → Type 0
Scanned select_set w p fds v u =
    ((j : ℕ) × (j < length fds)
      × (u.active_pipe_index ≡ some (p + j))
      × (u.ext_in_bytes ≡ yields select_set w (get_or fds j 0))
      × (0 < length u.ext_in_bytes)
      × SilentTo select_set w fds j)
    ⊎ ((u.active_pipe_index ≡ v.active_pipe_index) × SilentTo select_set w fds (length fds))

-- A silent pipe in front.
Scanned-silent :
    (select_set : List ℕ) (w : Wake) (p fd : ℕ) (fds : List ℕ) (v v' u : Voter)
    → yields select_set w fd ≡ []
    → v'.active_pipe_index ≡ v.active_pipe_index
    → Scanned select_set w (p + 1) fds v' u
    → Scanned select_set w p (fd ∷ fds) v u
Scanned-silent select_set w p fd fds v v' u quiet same h = elim h [
  | inl (j, j_in, active, bytes, some_bytes, silent) ↦
      inl (suc j, omega arith, active ∙ ap some (omega arith), bytes, some_bytes, before j silent)
  | inr (active, silent) ↦ inr (active ∙ same, before (length fds) silent)
]
  where
    before : (j : ℕ) → SilentTo select_set w fds j → SilentTo select_set w (fd ∷ fds) (suc j)
    before j silent zero h = quiet
    before j silent (suc i) h = silent i (omega arith)

pub ReadResult-cases : (r : ReadResult) → (r ≡ failed) ⊎ ((bytes : List ℕ) × (r ≡ got bytes))
ReadResult-cases failed = inl refl
ReadResult-cases (got bytes) = inr (bytes, refl)

-- One pipe of the scan: it is the active one, or it is silent and the scan goes on.
scan_step :
    (select_set : List ℕ) (w : Wake) (p fd : ℕ) (fds : List ℕ) (v : Voter)
    → let y = yields select_set w fd in
      ((0 < length y)
        × (recv_scan select_set w p (fd ∷ fds) v
            ≡ record v { ext_in_bytes = y; active_pipe_index = some p }))
      ⊎ ((y ≡ [])
          × ((u : Voter) × (u.active_pipe_index ≡ v.active_pipe_index)
              × (recv_scan select_set w p (fd ∷ fds) v ≡ recv_scan select_set w (p + 1) fds u)))
unfolding recv_scan
scan_step select_set w p fd fds v = elim (Bool-cases (fd_isset select_set w fd)) [
  | inr e ↦ inr (rw e refl, (v, refl, rw e refl))
  | inl e ↦ elim (ReadResult-cases (w.reads fd)) [
    | inl bad ↦ inr (rw (e, bad) refl, (record v { ext_in_bytes = [] }, refl, rw (e, bad) refl))
    | inr ([], none_read) ↦
        inr (rw (e, none_read) refl, (record v { ext_in_bytes = [] }, refl, rw (e, none_read) refl))
    | inr (x ∷ xs, read) ↦
        let some_read : ltb 0 (length (x ∷ xs)) ≡ true = ground arith in
        inl (rw (e, read) (omega arith), rw (e, read, some_read) refl)
  ]
]

scan_end :
    (select_set : List ℕ) (w : Wake) (p : ℕ) (v : Voter)
    → (recv_scan select_set w p [] v).active_pipe_index ≡ v.active_pipe_index
unfolding recv_scan
scan_end select_set w p v = refl

recv_scan-Scanned :
    (select_set : List ℕ) (w : Wake) (p : ℕ) (fds : List ℕ) (v : Voter)
    → Scanned select_set w p fds v (recv_scan select_set w p fds v)
recv_scan-Scanned select_set w p [] v = inr (scan_end select_set w p v, λ i h. absurd (omega arith))
recv_scan-Scanned select_set w p (fd ∷ fds) v = elim (scan_step select_set w p fd fds v) [
  | inl (some_bytes, e) ↦
      rw e
        (inl (0, omega arith, ap some (omega arith), refl, some_bytes, λ i h. absurd (omega arith)))
  | inr (quiet, (u, same, e)) ↦ rw e (
      Scanned-silent select_set w p fd fds v u (recv_scan select_set w (p + 1) fds u) quiet same
        (recv_scan-Scanned select_set w (p + 1) fds u))
]

-- Of the external input pipes, `j` is the first that yields data, and `bytes` are its data.
abbrev pub FirstInput : Wake → Voter → ℕ → List ℕ → Type 0
FirstInput w v j bytes =
    let fds = take v.in_pipe_count v.ext_in_fds in
    (j < length fds)
    × (bytes ≡ yields fds w (get_or fds j 0))
    × (0 < length bytes)
    × SilentTo fds w fds j

pub recv_woken :
    (w : Wake) (v : Voter)
    → w.woken ≡ true
    → let fds = take v.in_pipe_count v.ext_in_fds in
      (recv_data w v).1 ≡ recv_scan fds w 0 fds (record v { active_pipe_index = none })
unfolding recv_data
recv_woken w v woken =
    let fds = take v.in_pipe_count v.ext_in_fds in
    let start : Voter = record v { active_pipe_index = none } in
    ap (λ b. if b then recv_scan fds w 0 fds start else start) woken

received_some :
    (w : Wake) (v : Voter) (j : ℕ)
    → (recv_data w v).1.active_pipe_index ≡ some j
    → (recv_data w v).0 ≡ true
unfolding recv_data
received_some w v j e = rw (e, recv_data) refl

received_none :
    (w : Wake) (v : Voter) → (recv_data w v).1.active_pipe_index ≡ none → (recv_data w v).0 ≡ false
unfolding recv_data
received_none w v e = rw (e, recv_data) refl

-- When select() reports input, `recvData` returns true exactly by making the first external pipe that
-- yields data the active one, with that pipe's data in the buffer; it returns false only when no pipe
-- yields any, and then no pipe is active.
pub recv_data-FirstInput :
    (w : Wake) (v : Voter)
    → w.woken ≡ true
    → let (received, u) = recv_data w v in
      ((received ≡ true)
        × ((j : ℕ) × (u.active_pipe_index ≡ some j) × FirstInput w v j u.ext_in_bytes))
      ⊎ ((received ≡ false)
          × (u.active_pipe_index ≡ none)
          × (let fds = take v.in_pipe_count v.ext_in_fds in SilentTo fds w fds (length fds)))
recv_data-FirstInput w v woken =
    let fds = take v.in_pipe_count v.ext_in_fds in
    let e = recv_woken w v woken in
    elim (subst (Scanned fds w 0 fds (record v { active_pipe_index = none })) (sym e)
      (recv_scan-Scanned fds w 0 fds (record v { active_pipe_index = none }))) [
        | inl (j, j_in, active, bytes, some_bytes, silent) ↦
            let active' = active ∙ ap some (omega arith) in
            inl (received_some w v j active', (j, active', (j_in, bytes, some_bytes, silent)))
        | inr (active, silent) ↦ inr (received_none w v active, active, silent)
      ]

waits_on :
    (v : Voter) (active : ℕ)
    → v.active_pipe_index ≡ some active
    → check_wait_on_input v
      ≡ for_range v.indexed_pipes 0
          (λ p waiting. if active == get_or v.timer_start_index p 0 then true else waiting)
          false
unfolding check_wait_on_input
waits_on v active e = ground arith

-- `checkWaitOnInput` answers true exactly when the active pipe is one of those that start a timer.
pub check_wait_on_input_iff :
    (v : Voter) (active : ℕ)
    → v.active_pipe_index ≡ some active
    → (check_wait_on_input v ≡ true)
      ↔ ((i : ℕ) × (i < v.indexed_pipes) × (get_or v.timer_start_index i 0 ≡ active))
unfolding check_wait_on_input
check_wait_on_input_iff v active e =
    subst
      (λ b.
        (b ≡ true) ↔ ((i : ℕ) × (i < v.indexed_pipes) × (get_or v.timer_start_index i 0 ≡ active)))
      (sym (waits_on v active e))
      (for_range_inv
        (λ k waiting.
          (waiting ≡ true) ↔ ((i : ℕ) × (i < k) × (get_or v.timer_start_index i 0 ≡ active)))
        _ v.indexed_pipes 0 v.indexed_pipes false (omega arith)
        (λ k waiting _ _ h. elim (Bool-cases (active == get_or v.timer_start_index k 0)) [
          | inl hit ↦ rw hit ((λ _. (k, omega arith, sym ((==_iff _ _).0 hit))), (λ _. refl))
          | inr miss ↦ rw miss (
            (λ up. let (i, i_in, found) = h.0 up in (i, omega arith, found)),
            (λ (i, i_in, found). elim (lt-cases i k) [
              | inl (_, old) ↦ h.1 (i, old, found)
              | inr (_, new) ↦
                  let same : i ≡ k = omega arith in
                  absurd (ground (arith, ap (λ q. get_or v.timer_start_index q 0) same))
            ]),
          )
        ])
        ((λ up. absurd (cc up)), (λ (i, i_in, _). absurd (omega arith))))

-- The writes of the input to `n` replicas from `r` on, in order.
unfoldable pub inputs : Voter → ℕ → ℕ → ℕ → List Syscall
inputs v active zero r = []
inputs v active (suc n) r =
    write_to (fd_in_at v.replicas r active) v.ext_in_bytes ∷ inputs v active n (r + 1)

inputs_loop :
    (active n r : ℕ) (v : Voter) (cs : List Syscall)
    → for_range n r
        (λ k u. issue (write_to (fd_in_at u.replicas k active) u.ext_in_bytes ∷ []) u)
        (record v { calls = cs })
      ≡ record v { calls = cs ++ inputs v active n r }
unfolding for_range inputs
inputs_loop active zero r v cs = ap (λ l. record v { calls = l }) (sym (append-nil cs))
inputs_loop active (suc n) r v cs =
    let write = write_to (fd_in_at v.replicas r active) v.ext_in_bytes in
    inputs_loop active n (r + 1) v (cs ++ write ∷ [])
    ∙ ap (λ l. record v { calls = l }) (append_assoc cs (write ∷ []) (inputs v active n (r + 1)))

-- `sendToReps` writes the bytes received, unchanged, once to every replica, in the order of the
-- replicas, each on its own pipe that corresponds to the active one; it changes nothing else, and
-- answers true exactly when the active pipe is one of those that start a timer.
pub send_to_reps_lem :
    (v : Voter) (active : ℕ)
    → v.active_pipe_index ≡ some active
    → ((send_to_reps v).1 ≡ issue (inputs v active v.rep_count 0) v)
      × (((send_to_reps v).0 ≡ true)
          ↔ ((i : ℕ) × (i < v.indexed_pipes) × (get_or v.timer_start_index i 0 ≡ active)))
unfolding send_to_reps
send_to_reps_lem v active e = (
  ground (arith, inputs_loop active v.rep_count 0 v v.calls),
  ground (arith, check_wait_on_input_iff v active e),
)
