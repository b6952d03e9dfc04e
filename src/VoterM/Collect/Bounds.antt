-- ===== src/VoterM/Collect/Bounds.antt =====
-- What the waiting for answers keeps of the replicas' buffers: every count stays within its buffer.
use s3res.Prelude.{
  ℕ, ◌<◌, ◌≤◌, ◌≡◌, refl, sym, ◌∙◌, Bool, false, Bool-cases, inl, inr, some, for_range_inv, arith,
  subst, List, [], ◌∷◌, length, set, get_or, length-set, get_or-set_self, get_or-set_ne,
  length-write_at, ◌==◌, ==_iff,
}
use s3res.Sys.{ReadResult, failed, got, Wake, fd_isset}
use s3res.VoterM.State.{ReplicaR, Voter, max_pipe_buff, rep_at, fd_out_at, update_rep}
use s3res.VoterM.State.Lemmas.{rep_at-update_rep_cases}
use s3res.VoterM.Collect.Steps.{stored, collect_rule}
use s3res.VoterM.Collect.{stop_pipe, store_read, Sweep, sweep_pipe, sweep, collect_from_reps}

-- A replica's buffers as the program allocates them, with counts that stay inside.
pub record RepIsValid (out : ℕ) (rep : ReplicaR) : Type 0 where
  pub counts : length rep.buff_counts ≡ out
  pub buffers : length rep.buffers ≡ out
  pub storage : (p : ℕ) → p < out → length (get_or rep.buffers p []) ≡ max_pipe_buff
  pub fits : (p : ℕ) → p < out → get_or rep.buff_counts p 0 ≤ max_pipe_buff

abbrev pub RepsAreValid : ℕ → ℕ → List ReplicaR → Type 0
RepsAreValid n out reps = (r : ℕ) → r < n → RepIsValid out (rep_at reps r)

-- A read() that succeeds, and stores no more than it was asked for.
abbrev pub ReadOk : ReadResult → Type 0
ReadOk r = (bytes : List ℕ) × (r ≡ got bytes) × (length bytes ≤ max_pipe_buff)

-- of every wake, every read()
pub data ReadsOk : List Wake → Type 0 where
  at_end : ReadsOk []
  next :
      {w : Wake} {ws : List Wake} → ((fd : ℕ) → ReadOk (w.reads fd)) → ReadsOk ws → ReadsOk (w ∷ ws)

-- one place of a list, whether it is the one that is set
set_place {ℓ κ} :
    {A : Type ℓ} (P : A → Type κ) (xs : List A) (i j : ℕ) (a d : A)
    → i < length xs
    → P a
    → P (get_or xs j d)
    → P (get_or (set xs i a) j d)
set_place P xs i j a d inside new old = elim (Bool-cases (i == j)) [
  | inl e ↦
      let same = (==_iff i j).0 e in
      subst (λ k. P (get_or (set xs i a) k d)) same
        (subst P (sym (get_or-set_self xs i a d inside)) new)
  | inr e ↦ subst P (sym (get_or-set_ne xs {i = i} {j = j} a d (ground arith))) old
]

store_read-IsValid :
    (res : ReadResult) (p out : ℕ) (rep : ReplicaR)
    → ReadOk res
    → p < out
    → RepIsValid out rep
    → RepIsValid out (store_read res p rep)
unfolding store_read
store_read-IsValid failed p out rep (bytes, e, h) p_in v = absurd (cc e)
store_read-IsValid (got read) p out rep (bytes, e, h) p_in v = record {
  counts = length-set rep.buff_counts p (length read) ∙ v.counts;
  buffers = length-set rep.buffers p _ ∙ v.buffers;
  storage = λ q q_in.
      set_place (λ b. length b ≡ max_pipe_buff) rep.buffers p q _ [] (omega (arith, v.buffers))
        (length-write_at (get_or rep.buffers p []) 0 read ∙ v.storage p p_in) (v.storage q q_in);
  fits = λ q q_in.
      set_place (λ c. c ≤ max_pipe_buff) rep.buff_counts p q (length read) 0
        (omega (arith, v.counts)) (ground arith) (v.fits q q_in);
}

update-IsValid :
    (n out r : ℕ) (reps : List ReplicaR) (f : ReplicaR → ReplicaR)
    → ((rep : ReplicaR) → RepIsValid out rep → RepIsValid out (f rep))
    → RepsAreValid n out reps
    → RepsAreValid n out (update_rep reps r f)
update-IsValid n out r reps f keep valid s s_in = elim (rep_at-update_rep_cases reps r f s) [
  | inl (_, e) ↦ subst (RepIsValid out) (sym e) (keep (rep_at reps s) (valid s s_in))
  | inr e ↦ subst (RepIsValid out) (sym e) (valid s s_in)
]

sweep_pipe-IsValid :
    (v : Voter) (fds : List ℕ) (w : Wake) (expected n out r p : ℕ) (s : Sweep)
    → ((fd : ℕ) → ReadOk (w.reads fd))
    → p < out
    → RepsAreValid n out s.reps
    → RepsAreValid n out (sweep_pipe v fds w expected r p s).reps
unfolding sweep_pipe
sweep_pipe-IsValid v fds w expected n out r p s ok p_in valid =
    let fd = fd_out_at s.reps r p in
    let stored =
      update-IsValid n out r s.reps (store_read (w.reads fd) p)
        (λ rep h. store_read-IsValid (w.reads fd) p out rep (ok fd) p_in h) valid in
    elim (Bool-cases (fd_isset fds w fd)) [
      | inl e ↦
          rw e
            (elim (Bool-cases (p == stop_pipe v)) [ inl e' ↦ rw e' stored | inr e' ↦ rw e' stored ])
      | inr e ↦ rw e valid
    ]

sweep-IsValid :
    (v : Voter) (fds : List ℕ) (w : Wake) (expected n : ℕ) (s : Sweep)
    → ((fd : ℕ) → ReadOk (w.reads fd))
    → RepsAreValid n v.out_pipe_count s.reps
    → RepsAreValid n v.out_pipe_count (sweep v fds w expected s).reps
unfolding sweep
sweep-IsValid v fds w expected n s ok valid =
    let P = λ (_ : ℕ) (t : Sweep). RepsAreValid n v.out_pipe_count t.reps in
    for_range_inv P _ v.rep_count 0 v.rep_count s (omega arith)
      (λ r t _ _ h.
        for_range_inv P _ v.out_pipe_count 0 v.out_pipe_count t (omega arith)
          (λ p u _ p_in k. sweep_pipe-IsValid v fds w expected n v.out_pipe_count r p u ok p_in k)
          h)
      valid

-- What the waiting leaves alone.
abbrev pub SameShape : Voter → Voter → Type 0
SameShape v u = (u.rep_count ≡ v.rep_count) × (u.out_pipe_count ≡ v.out_pipe_count)

-- If every read() that the voter makes while it waits succeeds, within the size asked for, then
-- however `collectFromReps` ends, each replica's buffers keep their sizes, and each count stays within
-- its buffer; neither the number of replicas nor that of the pipes changes.
pub collect_from_reps-IsValid :
    (set_timer : Bool) (expected : ℕ) (ws : List Wake) (v : Voter) {n : ℕ} {u : Voter}
    → ReadsOk ws
    → RepsAreValid v.rep_count v.out_pipe_count v.replicas
    → collect_from_reps set_timer expected ws v ≡ some (n, u)
    → RepsAreValid u.rep_count u.out_pipe_count u.replicas × SameShape v u
unfolding collect_from_reps
collect_from_reps-IsValid set_timer expected ws v ok valid h =
    collect_rule (λ ws _ u. ReadsOk ws × Kept u) (λ _ u. Kept u) set_timer expected
      (λ w ws d u (_, kept) _. kept)
      (λ w ws d u (oks, kept) _ _. (stored-valid w ws d u oks kept).1)
      (λ w ws d u (oks, kept) _. stored-valid w ws d u oks kept) ws 0
      (record v { timeout_occurred = false }) (ok, (valid, (refl, refl))) h
  where
    Kept : Voter → Type 0
    Kept u = RepsAreValid u.rep_count u.out_pipe_count u.replicas × SameShape v u

    stored-valid :
        (w : Wake) (ws : List Wake) (d : ℕ) (u : Voter)
        → ReadsOk (w ∷ ws)
        → Kept u
        → ReadsOk ws × Kept (stored w expected d u)
    stored-valid w ws d u (next ok oks) (valid, shape) =
        (oks, (sweep-IsValid u _ w expected u.rep_count _ ok valid, shape))
