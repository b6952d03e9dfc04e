-- ===== src/Controller/Restart.antt =====
-- A controller that its voter restarts: the copy gives up what it has inherited, and takes what the
-- voter hands it.
use s3res.Prelude.{
  ℕ, zero, suc, ◌+◌, ◌≤◌, ◌<◌, ◌≡◌, refl, sym, ap, ◌∙◌, List, [], ◌∷◌, ◌++◌, get_or, set, length,
  length-set, get_or-set_self, get_or-set_ne, append-nil, append_assoc, for_range, for_range_inv,
  arith, lt-cases, inl, inr, subst, true, ◌==◌, if◌then◌else◌, Bool-cases,
}
use s3res.Prelude.Int.{ℤ}
use s3res.Sys.{Syscall, close_fd}
use s3res.CommTypes.{TypedPipe, no_typed_pipe, comm_error}
use s3res.CommTypes.Convert.{reset_pipe}
use s3res.VoteBuff.{VotePipe, no_pipe}
use s3res.FdServer.{send_fds_request}
use s3res.FdClient.{Socket, deliver, actual_length}
use s3res.FdClient.Delivery.{handed, connect_recv_fds-delivered}
use s3res.Controller.{Controller, child, reset_round, restart_handler, init_tas}

-- One close() for each descriptor but 0, which stands for an end that is not open.
abbrev pub closes_of : List ℕ → List Syscall
closes_of [] = []
closes_of (fd ∷ fds) = if fd == 0 then closes_of fds else close_fd fd ∷ closes_of fds

-- Both ends of `n` pipes, from the k-th on.
abbrev pub ends : ℕ → ℕ → List TypedPipe → List ℕ
ends zero k pipes = []
ends (suc n) k pipes =
    let pipe = get_or pipes k no_typed_pipe in pipe.fd_in ∷ pipe.fd_out ∷ ends n (k + 1) pipes

-- The calls that close the open ends of `n` pipes, from the k-th on, in their order.
pub all_closes : ℕ → ℕ → List TypedPipe → List Syscall
all_closes n k pipes = closes_of (ends n k pipes)

-- The first of the pipes is the first to be closed.
all_closes-suc :
    (n k : ℕ) (pipes : List TypedPipe)
    → all_closes (suc n) k pipes
      ≡ (reset_pipe (get_or pipes k no_typed_pipe)).0 ++ all_closes n (k + 1) pipes
unfolding all_closes reset_pipe
all_closes-suc n k pipes =
    let pipe = get_or pipes k no_typed_pipe in
    elim (Bool-cases (pipe.fd_in == 0)) [
      | inl e ↦ elim (Bool-cases (pipe.fd_out == 0)) [
        | inl e' ↦ rw (e, e') refl
        | inr e' ↦ rw (e, e') refl
      ]
      | inr e ↦ elim (Bool-cases (pipe.fd_out == 0)) [
        | inl e' ↦ rw (e, e') refl
        | inr e' ↦ rw (e, e') refl
      ]
    ]

-- A pipe that is not open at either end.
abbrev pub closed_pipe : TypedPipe
closed_pipe = record { type = comm_error; fd_in = 0; fd_out = 0 }

-- The state of the loop before its k-th round.
record Reset (pipes : List TypedPipe) (n k : ℕ) (st : List Syscall × List TypedPipe) : Type 0 where
  same_size : length st.1 ≡ length pipes
  kept : (i : ℕ) → k ≤ i → get_or st.1 i no_typed_pipe ≡ get_or pipes i no_typed_pipe
  closed : (i : ℕ) → i < k → get_or st.1 i no_typed_pipe ≡ closed_pipe
  calls : (left : ℕ) → k + left ≡ n → st.0 ++ all_closes left k pipes ≡ all_closes n 0 pipes

Reset-round :
    (pipes : List TypedPipe) (n k : ℕ) (st : List Syscall × List TypedPipe)
    → k < n
    → n ≤ length pipes
    → Reset pipes n k st
    → Reset pipes n (k + 1) (reset_round k st)
unfolding reset_pipe
Reset-round pipes n k (calls, now) lt fits h = record {
  same_size = length-set now k closed_pipe ∙ h.same_size;
  kept = λ i (over : k + 1 ≤ i).
      get_or-set_ne now closed_pipe no_typed_pipe (omega arith) ∙ h.kept i (omega arith);
  closed = λ i below. elim (lt-cases i k) [
    | inl (_, earlier) ↦
        get_or-set_ne now closed_pipe no_typed_pipe (omega arith) ∙ h.closed i earlier
    | inr (_, later) ↦
        let same : k ≡ i = omega arith in
        subst (λ j. get_or (set now k closed_pipe) j no_typed_pipe ≡ closed_pipe) same
          (get_or-set_self now k closed_pipe no_typed_pipe (omega (arith, h.same_size)))
  ];
  calls = λ left e.
      append_assoc calls (reset_pipe (get_or now k no_typed_pipe)).0 (all_closes left (k + 1) pipes)
      ∙ ap (λ pipe. calls ++ ((reset_pipe pipe).0 ++ all_closes left (k + 1) pipes))
          (h.kept k (omega arith))
      ∙ ap (λ l. calls ++ l) (sym (all_closes-suc left k pipes))
      ∙ h.calls (suc left) (omega arith);
}

-- The loop over the pipes closes the open ends of all, in their order, and leaves each pipe closed.
pub reset_pipes-Reset :
    (pipes : List TypedPipe) (n : ℕ)
    → n ≤ length pipes
    → ((for_range n 0 reset_round ([], pipes)).0 ≡ all_closes n 0 pipes)
      × ((i : ℕ)
          → i < n
          → get_or (for_range n 0 reset_round ([], pipes)).1 i no_typed_pipe ≡ closed_pipe)
unfolding all_closes
reset_pipes-Reset pipes n fits =
    let h =
      for_range_inv (Reset pipes n) reset_round n 0 n ([], pipes) (omega arith)
        (λ k st _ lt h. Reset-round pipes n k st lt fits h)
        (record {
          same_size = refl;
          kept = λ i over. refl;
          closed = λ i below. absurd (omega arith);
          calls = λ left e. let all : left ≡ n = omega arith in ap (λ m. all_closes m 0 pipes) all;
        }) in
    (sym (append-nil _) ∙ h.calls 0 (omega arith), h.closed)

-- A copy whose calls all succeed, whose socket's name has fewer than 200 bytes, and that asks for as many pipes as its voter sends, has closed the open
-- ends of the pipes that it had, each once and in their order; its pipes are the voter's, with the
-- replica's ends; its cpu and its priority are those that were sent, and InitTAS() was called with them;
-- and its indexes are set from the new pipes.
pub restart_handler-delivered :
    {Indexes : Type 0} (set_pipe_indexes : List TypedPipe → Indexes → Indexes)
    (c : Controller Indexes) (dup : ℕ → ℕ) (sent : List VotePipe) (pinned_cpu priority : ℤ)
    (s : Socket)
    → c.pipe_count ≤ length c.pipes
    → actual_length c.name < 200
    → s.created ≡ true
    → s.connected ≡ true
    → s.received ≡ deliver dup (send_fds_request sent c.pipe_count pinned_cpu priority)
    → s.written ≡ true
    → (let r = restart_handler set_pipe_indexes child s c in
        (r.closes ≡ all_closes c.pipe_count 0 c.pipes)
        × (r.tas ≡ init_tas pinned_cpu priority ∷ [])
        × (r.state.pinned_cpu ≡ pinned_cpu)
        × (r.state.priority ≡ priority)
        × ((i : ℕ)
            → i < c.pipe_count
            → get_or r.state.pipes i no_typed_pipe ≡ handed dup (get_or sent i no_pipe))
        × (r.state.indexes ≡ set_pipe_indexes r.state.pipes c.indexes))
unfolding restart_handler
restart_handler-delivered set_pipe_indexes c dup sent pinned_cpu priority s fits short created
      connected received written =
    let (m, computes, cpu, prio, pipes) =
      connect_recv_fds-delivered dup sent c.pipe_count pinned_cpu priority s c.name short created
        connected received written in
    rw computes
      ((reset_pipes-Reset c.pipes c.pipe_count fits).0, rw (cpu, prio) refl, cpu, prio, pipes, refl)
