-- ===== src/VoterM/Send/Props.antt =====
-- `sendData` writes one replica's answers, in order, and clears every count.
use s3res.Prelude.{
  ℕ, zero, suc, ◌+◌, ◌<◌, ◌≤◌, ◌≡◌, refl, sym, subst, ap, ◌∙◌, Bool-cases, inl, inr, for_range,
  for_range_inv, List, [], ◌∷◌, ◌++◌, append-nil, append_assoc, set, get_or, take, ◌==◌,
  if◌then◌else◌, arith, lt-cases, length, ltb, false, get_or-set_default, get_or-set_keeps_default,
}
use s3res.Sys.{Syscall, write_to}
use s3res.VoterM.State.{ReplicaR, Voter, rep_at, count_at, buffer_at, issue}
use s3res.Sys.Writes.{writes}
use s3res.VoterM.State.Lemmas.{rep_at-update_rep_total, rep_at-update_rep_cases}
use s3res.VoterM.Send.{write_count, send_pipe, reset_count, send_data}

-- The writes of the answers of replica `r`, of `n` pipes from `p` on: one for each pipe that has any.
unfoldable pub answers : List ReplicaR → List ℕ → ℕ → ℕ → ℕ → List Syscall
answers reps fds r zero p = []
answers reps fds r (suc n) p =
    (if count_at reps r p == 0
      then []
      else write_to (get_or fds p 0) (take (count_at reps r p) (buffer_at reps r p)) ∷ [])
    ++ answers reps fds r n (p + 1)

-- The counts of replica `r` speak of bytes that its buffers hold: no read() of it has failed.
abbrev pub AnswersFit : List ReplicaR → ℕ → Type 0
AnswersFit reps r = (p : ℕ) → count_at reps r p ≤ length (buffer_at reps r p)

write_count_fits :
    (fd : ℕ) (buffer : List ℕ) (count : ℕ)
    → count ≤ length buffer
    → write_count fd buffer count ≡ write_to fd (take count buffer)
unfolding write_count
write_count_fits fd buffer count fits =
    let inside : ltb (length buffer) count ≡ false = ground arith in rw inside refl

send_loop :
    (r n p : ℕ) (v : Voter)
    → AnswersFit v.replicas r
    → for_range n p (send_pipe r) v ≡ issue (answers v.replicas v.ext_out_fds r n p) v
unfolding for_range send_pipe answers
send_loop r zero p v fit = λ i. issue_none i
  where
    issue_none : v ≡ issue [] v
    issue_none = ap (λ cs. record v { calls = cs }) (sym (append-nil v.calls))
send_loop r (suc n) p v fit = elim (Bool-cases (count_at v.replicas r p == 0)) [
  | inl e ↦ rw e (send_loop r n (p + 1) v fit)
  | inr e ↦
      rw (e, write_count_fits (get_or v.ext_out_fds p 0) (buffer_at v.replicas r p) _ (fit p))
        (send_loop r n (p + 1) _ fit
          ∙ ap (λ cs. record v { calls = cs }) (append_assoc v.calls _ _))
]

-- the assignment of the reset
abbrev zero_count : ℕ → ReplicaR → ReplicaR
zero_count p rep = record rep { buff_counts = set rep.buff_counts p 0 }

reset_count_self : (r p : ℕ) (reps : List ReplicaR) → count_at (reset_count r p reps) r p ≡ 0
unfolding reset_count
reset_count_self r p reps =
    ap (λ (x : ReplicaR). get_or x.buff_counts p 0)
      (rep_at-update_rep_total reps r (zero_count p) refl)
    ∙ get_or-set_default (rep_at reps r).buff_counts p 0

reset_count_keeps :
    (r p s q : ℕ) (reps : List ReplicaR)
    → count_at reps s q ≡ 0
    → count_at (reset_count r p reps) s q ≡ 0
unfolding reset_count
reset_count_keeps r p s q reps h = elim (rep_at-update_rep_cases reps r (zero_count p) s) [
  | inl (_, e) ↦
      ap (λ (x : ReplicaR). get_or x.buff_counts q 0) e
      ∙ get_or-set_keeps_default (rep_at reps s).buff_counts p q 0 h
  | inr e ↦ ap (λ (x : ReplicaR). get_or x.buff_counts q 0) e ∙ h
]

-- The counts of the first `n` pipes of replica `r` are 0.
abbrev ZeroTo : ℕ → ℕ → List ReplicaR → Type 0
ZeroTo n r reps = (p : ℕ) → p < n → count_at reps r p ≡ 0

inner_zero :
    (out r : ℕ) (reps : List ReplicaR) → ZeroTo out r (for_range out 0 (reset_count r) reps)
inner_zero out r reps =
    for_range_inv (λ k t. ZeroTo k r t) (reset_count r) out 0 out reps (omega arith)
      (λ k t _ _ zeros p h. elim (lt-cases p k) [
        | inl (_, old) ↦ reset_count_keeps r k r p t (zeros p old)
        | inr (_, new) ↦
            let e : k ≡ p = omega arith in
            subst (λ j. count_at (reset_count r k t) r j ≡ 0) e (reset_count_self r k t)
      ])
      (λ p h. absurd (omega arith))

inner_keeps :
    (out r s q : ℕ) (reps : List ReplicaR)
    → count_at reps s q ≡ 0
    → count_at (for_range out 0 (reset_count r) reps) s q ≡ 0
inner_keeps out r s q reps h =
    for_range_inv (λ _ t. count_at t s q ≡ 0) (reset_count r) out 0 out reps (omega arith)
      (λ k t _ _ z. reset_count_keeps r k s q t z) h

all_zero :
    (n out : ℕ) (reps : List ReplicaR) (r : ℕ)
    → r < n
    → ZeroTo out r (for_range n 0 (λ s t. for_range out 0 (reset_count s) t) reps)
all_zero n out reps =
    for_range_inv (λ k t. (r : ℕ) → r < k → ZeroTo out r t)
      (λ s t. for_range out 0 (reset_count s) t) n 0 n reps (omega arith)
      (λ k t _ _ zeros r h p hp. elim (lt-cases r k) [
        | inl (_, old) ↦ inner_keeps out k r p t (zeros r old p hp)
        | inr (_, new) ↦
            let e : k ≡ r = omega arith in
            subst (λ j. count_at (for_range out 0 (reset_count k) t) j p ≡ 0) e
              (inner_zero out k t p hp)
      ])
      (λ r h. absurd (omega arith))

-- If no read of replica `r` has failed, `sendData(r)` issues one write for each output pipe on which replica `r` has an answer, in the
-- order of the pipes, with the answer's bytes, and nothing else; then every replica's count is 0 on
-- every output pipe, ready for the next turn.
pub send_data_lem :
    (r : ℕ) (v : Voter)
    → AnswersFit v.replicas r
    → ((send_data r v).calls ≡ v.calls ++ answers v.replicas v.ext_out_fds r v.out_pipe_count 0)
      × ((s p : ℕ)
          → s < v.rep_count
          → p < v.out_pipe_count
          → count_at (send_data r v).replicas s p ≡ 0)
unfolding send_data
send_data_lem r v fit = (
  ap (λ (u : Voter). u.calls) (send_loop r v.out_pipe_count 0 v fit),
  rw (send_loop r v.out_pipe_count 0 v fit)
      (λ s p hs hp. all_zero v.rep_count v.out_pipe_count v.replicas s hs p hp),
)

-- What is written depends on the replica's counts and buffers only.
pub answers_congr :
    (reps reps' : List ReplicaR) (fds : List ℕ) (r s : ℕ) (n p : ℕ)
    → ((q : ℕ)
        → p ≤ q
        → q < p + n
        → (count_at reps r q ≡ count_at reps' s q)
          × (take (count_at reps r q) (buffer_at reps r q)
              ≡ take (count_at reps' s q) (buffer_at reps' s q)))
    → answers reps fds r n p ≡ answers reps' fds s n p
unfolding answers
answers_congr reps reps' fds r s zero p h = refl
answers_congr reps reps' fds r s (suc n) p h = ground (
  arith,
  h p,
  answers_congr reps reps' fds r s n (p + 1) (λ q lo hi. h q (omega arith) (omega arith)),
)

-- They are writes all.
pub writes-answers :
    (reps : List ReplicaR) (fds : List ℕ) (r n p : ℕ)
    → writes (answers reps fds r n p) ≡ answers reps fds r n p
unfolding answers
writes-answers reps fds r zero p = refl
writes-answers reps fds r (suc n) p = elim (Bool-cases (count_at reps r p == 0)) [
  | inl e ↦ rw e (writes-answers reps fds r n (p + 1))
  | inr e ↦ rw e (
      ap (λ l. write_to (get_or fds p 0) (take (count_at reps r p) (buffer_at reps r p)) ∷ l)
        (writes-answers reps fds r n (p + 1)))
]
