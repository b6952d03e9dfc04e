-- ===== src/VoterM/Single/Answered.antt =====
-- Which replicas have answered when `sendCollect` comes back, on a single core.
use s3res.Prelude.{
  ℕ, ◌<◌, ◌≤◌, ◌≡◌, refl, sym, subst, ap, ◌∙◌, inl, inr, true, Bool-cases, for_range_inv, arith,
  List, [], ◌∷◌, ◌==◌, ==_iff, length, length-set, set, get_or, get_or-set_self, get_or-set_ne,
  set_outside, lt-cases,
}
use s3res.Sys.{ReadResult, failed, got, Wake, fd_isset}
use s3res.VoterM.State.{ReplicaR, Voter, rep_at, count_at, fd_out_at, update_rep}
use s3res.VoterM.State.Lemmas.{rep_at-update_rep_self, rep_at-update_rep_cases, update_rep_keeps}
use s3res.VoterM.Collect.{Sweep, stop_pipe, store_read}
use s3res.VoterM.Single.{own_fd_set, own_pipe}
use s3res.VoterM.Single.Count.{swept}

-- The first `n` replicas are there, each with a count for each of `out` pipes.
abbrev pub Shaped : ℕ → ℕ → List ReplicaR → Type 0
Shaped n out reps = (n ≤ length reps) × ((s : ℕ) → s < n → length (rep_at reps s).buff_counts ≡ out)

-- A read() that does not find the end of the file.
abbrev pub NotAtEnd : ReadResult → Type 0
NotAtEnd failed = Unit
NotAtEnd (got bytes) = 0 < length bytes

-- of every sleep, every read()
abbrev pub NoneAtEnd : List Wake → Type 0
NoneAtEnd [] = Unit
NoneAtEnd (w ∷ ws) = ((fd : ℕ) → NotAtEnd (w.reads fd)) × NoneAtEnd ws

-- What was read is still there, and nothing has changed its size.
pub record Grows (reps reps' : List ReplicaR) : Type 0 where
  pub shaped : (n out : ℕ) → Shaped n out reps → Shaped n out reps'
  pub mono : (s q : ℕ) → 0 < count_at reps s q → 0 < count_at reps' s q

abbrev pub same_reps : (reps : List ReplicaR) → Grows reps reps
same_reps reps = record { shaped = λ n out h. h; mono = λ s q h. h }

pub then-Grows : {a b c : List ReplicaR} → Grows a b → Grows b c → Grows a c
then-Grows h k = record {
  shaped = λ n out x. k.shaped n out (h.shaped n out x);
  mono = λ s q x. k.mono s q (h.mono s q x);
}

positive_set : (xs : List ℕ) (p q c : ℕ) → 0 < c → 0 < get_or xs q 0 → 0 < get_or (set xs p c) q 0
positive_set xs p q c some_c h = elim (lt-cases p (length xs)) [
  | inr (_, outside) ↦ subst (λ l. 0 < get_or l q 0) (sym (set_outside xs p c outside)) h
  | inl (_, inside) ↦ elim (Bool-cases (p == q)) [
    | inl e ↦
        let same = (==_iff p q).0 e in
        subst (λ k. 0 < get_or (set xs p c) k 0) same
          (omega (arith, get_or-set_self xs p c 0 inside))
    | inr e ↦ omega (arith, get_or-set_ne xs {i = p} {j = q} c 0 (ground arith))
  ]
]

-- The count that a read leaves, which is not 0.
store_read-counts :
    (res : ReadResult) (p : ℕ) (rep : ReplicaR)
    → NotAtEnd res
    → (c : ℕ) × (0 < c) × ((store_read res p rep).buff_counts ≡ set rep.buff_counts p c)
unfolding store_read
store_read-counts failed p rep h = (_, (omega arith), refl)
store_read-counts (got bytes) p rep h = (length bytes, h, refl)

module _ (reps : List ReplicaR) (r p : ℕ) (res : ReadResult) (ok : NotAtEnd res) where
  store_read-Grows : Grows reps (update_rep reps r (store_read res p))
  store_read-Grows = record {
    shaped = λ n out (there, sizes). (
      omega (arith, length-set reps r (store_read res p (rep_at reps r))),
      (λ s s_in.
          update_rep_keeps reps r (store_read res p) (λ rep. length rep.buff_counts)
            (λ rep.
              let (c, _, e) = store_read-counts res p rep ok in
              ap length e ∙ length-set rep.buff_counts p c)
            s
          ∙ sizes s s_in),
    );
    mono = λ s q h. elim (rep_at-update_rep_cases reps r (store_read res p) s) [
      | inr e ↦ subst (λ (rep : ReplicaR). 0 < get_or rep.buff_counts q 0) (sym e) h
      | inl (_, e) ↦
          let (c, some_c, counts) = store_read-counts res p (rep_at reps s) ok in
          subst (λ (rep : ReplicaR). 0 < get_or rep.buff_counts q 0) (sym e)
            (subst (λ l. 0 < get_or l q 0) (sym counts)
              (positive_set (rep_at reps s).buff_counts p q c some_c h))
    ];
  }

  store_read-answers :
      (n out : ℕ)
      → Shaped n out reps
      → r < n
      → p < out
      → 0 < count_at (update_rep reps r (store_read res p)) r p
  store_read-answers n out (there, sizes) r_in p_in =
      let (c, some_c, counts) = store_read-counts res p (rep_at reps r) ok in
      let inside : p < length (rep_at reps r).buff_counts = omega (arith, sizes r r_in) in
      let now = rep_at-update_rep_self reps r (store_read res p) (omega arith) in
      subst (λ (rep : ReplicaR). 0 < get_or rep.buff_counts p 0) (sym now)
        (subst (λ l. 0 < get_or l p 0) (sym counts)
          (omega (arith, get_or-set_self (rep_at reps r).buff_counts p c 0 inside)))

-- What a sweep over the pipes of replica `r` has done so far.
pub record Swept (v : Voter) (r : ℕ) (s : Sweep) : Type 0 where
  pub grows : Grows v.replicas s.reps
  pub answered :
      (n : ℕ)
      → Shaped n v.out_pipe_count v.replicas
      → r < n
      → s.done ≡ true
      → 0 < count_at s.reps r (stop_pipe v)

own_pipe-Swept :
    (v : Voter) (fds : List ℕ) (w : Wake) (r p : ℕ) (s : Sweep)
    → ((fd : ℕ) → NotAtEnd (w.reads fd))
    → p < v.out_pipe_count
    → Swept v r s
    → Swept v r (own_pipe v fds w r p s)
unfolding own_pipe
own_pipe-Swept v fds w r p s ok p_in h =
    let fd = fd_out_at s.reps r p in
    let step = store_read-Grows s.reps r p (w.reads fd) (ok fd) in
    elim (Bool-cases (fd_isset fds w fd)) [
      | inr e ↦ rw e h
      | inl e ↦ elim (Bool-cases (p == stop_pipe v)) [
        | inl e' ↦
            rw (e, e')
              (record {
                grows = then-Grows h.grows step;
                answered = λ n shape r_in _.
                    subst (λ q. 0 < count_at (update_rep s.reps r (store_read (w.reads fd) p)) r q)
                      ((==_iff p (stop_pipe v)).0 e')
                      (store_read-answers s.reps r p (w.reads fd) (ok fd) n v.out_pipe_count
                        (h.grows.shaped n v.out_pipe_count shape) r_in p_in);
              })
        | inr e' ↦
            rw (e, e')
              (record {
                grows = then-Grows h.grows step;
                answered = λ n shape r_in d. step.mono r (stop_pipe v) (h.answered n shape r_in d);
              })
      ]
    ]

pub swept-Swept :
    (r : ℕ) (w : Wake) (d : ℕ) (v : Voter)
    → ((fd : ℕ) → NotAtEnd (w.reads fd))
    → Swept v r (swept r w d v)
swept-Swept r w d v ok =
    for_range_inv (λ _ s. Swept v r s) (own_pipe v (own_fd_set v r) w r) v.out_pipe_count 0
      v.out_pipe_count _ (omega arith)
      (λ p s _ p_in h. own_pipe-Swept v (own_fd_set v r) w r p s ok p_in h)
      (record { grows = same_reps v.replicas; answered = λ n shape r_in d. absurd (cc d) })
