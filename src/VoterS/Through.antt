-- ===== src/VoterS/Through.antt =====
-- What the replica writes goes through the voter as it is.
use s3res.Prelude.{
  ℕ, ◌<◌, ◌≡◌, refl, sym, subst, ap, ◌∙◌, List, [], ◌∷◌, ◌++◌, take, drop, take-whole, drop-whole,
  length, ltb, ◌==◌, true, false, for_range, arith,
}
use s3res.Prelude.Int.{ℤ}
use s3res.Sys.{got, ok, error, Status, write_to}
use s3res.VoteBuff.Fifo
use s3res.VoteBuff.{VotePipe, max_vote_pipe_buff, pipe_to_buff, copy_buffer}
use s3res.VoteBuff.Inv.{IsValid, pipe_to_buff-IsValid}
use s3res.VoteBuff.Ring.{contents, length-contents}
use s3res.VoteBuff.Refine.{pipe_to_buff_refines, copy_buffer_lem}
use s3res.VoteBuff.Advance.{advanced, buff_to_pipe_enough, contents-advanced, advanced-IsValid}
use s3res.VoteBuff.RepType.{smr}
use s3res.Replicas.{Fleet, vot_of, held, change_vot, call}
use s3res.Replicas.Access.{vot_of-inside, vot_of-change_vot_self}
use s3res.Replicas.Count.{bytes_ready}
use s3res.Replicas.Balance.{balance_reps}
use s3res.Runs.{Run, running, Ends, weaken-Ends, for_run, ◌then_do◌}
use s3res.VoterS.{
  Sequential, Answers, ext_pipe, with_fleet, send_round, send_pipe, check_sdc, process_from_rep,
}

bytes_ready_one :
    (v : Sequential) (p : ℕ)
    → v.rep_count ≡ 1
    → held v.fleet.reps 0 p < max_vote_pipe_buff
    → bytes_ready v.fleet.reps v.rep_count p ≡ held v.fleet.reps 0 p
unfolding bytes_ready for_range
bytes_ready_one v p one fits =
    let less : ltb (held v.fleet.reps 0 p) 4096 ≡ true = ground arith in rw (one, less) refl

balance_one :
    (w : Answers) (num : ℕ) (f : Fleet) (priority : ℤ)
    → num ≡ 1
    → balance_reps w.kernel num priority f ≡ f
unfolding balance_reps
balance_one w num f priority one = rw one refl

-- With one replica, `sendPipe` sends all that its ring holds.
send_pipe_one :
    (p : ℕ) (v : Sequential)
    → v.rep_count ≡ 1
    → held v.fleet.reps 0 p < max_vote_pipe_buff
    → 0 < held v.fleet.reps 0 p
    → let pipe = vot_of v.fleet.reps 0 p in
      send_pipe p 0 v
      ≡ running (
          with_fleet
            (λ f.
              call
                (write_to (ext_pipe v p).fd_out (copy_buffer pipe pipe.buff_count) ∷ [])
                (record f { reps = change_vot f.reps 0 p (λ _. advanced pipe pipe.buff_count) }))
            v)
unfolding send_pipe for_run send_round ◌then_do◌
send_pipe_one p v one fits some_bytes =
    all_ready
    ∙ ap (λ count. for_run count 0 (send_round p 0 (held v.fleet.reps 0 p)) v) one
    ∙ one_round
  where
    all_ready : send_pipe p 0 v ≡ for_run v.rep_count 0 (send_round p 0 (held v.fleet.reps 0 p)) v
    all_ready =
        let nonzero : (held v.fleet.reps 0 p == 0) ≡ false = ground arith in
        rw (bytes_ready_one v p one fits, nonzero) refl

    one_round :
        for_run 1 0 (send_round p 0 (held v.fleet.reps 0 p)) v
        ≡ running (
            with_fleet
              (λ f.
                call
                  (write_to
                      (ext_pipe v p).fd_out
                      (copy_buffer (vot_of v.fleet.reps 0 p) (held v.fleet.reps 0 p))
                    ∷ [])
                  (record f {
                    reps =
                        change_vot f.reps 0 p
                          (λ _. advanced (vot_of v.fleet.reps 0 p) (held v.fleet.reps 0 p));
                  }))
              v)
    one_round =
        rw
          (buff_to_pipe_enough (vot_of v.fleet.reps 0 p) (ext_pipe v p).fd_out
            (held v.fleet.reps 0 p) (omega arith))
          refl

-- A ring that exists in the array is found again after an assignment.
set_ring :
    (v : Sequential) (p : ℕ) (q : VotePipe)
    → IsValid (vot_of v.fleet.reps 0 p)
    → vot_of (change_vot v.fleet.reps 0 p (λ _. q)) 0 p ≡ q
set_ring v p q valid =
    let (inside, within) = vot_of-inside v.fleet.reps 0 p (λ absent.
      let size = ap (λ t. length t.buffer) absent in omega (arith, valid.storage, size)) in
    vot_of-change_vot_self v.fleet.reps 0 p (λ _. q) inside within

-- `checkSDC` of one replica sends all that its ring holds, which is valid and not empty: one write() of
-- its bytes, and the ring is empty.
check_sdc_one :
    (p : ℕ) (v : Sequential)
    → v.rep_type ≡ smr
    → v.rep_count ≡ 1
    → IsValid (vot_of v.fleet.reps 0 p)
    → 0 < held v.fleet.reps 0 p
    → Ends ⊥
        (λ u.
          (u.fleet.calls
            ≡ v.fleet.calls
              ++ (write_to (ext_pipe v p).fd_out (contents (vot_of v.fleet.reps 0 p)) ∷ []))
          × (contents (vot_of u.fleet.reps 0 p) ≡ [])
          × IsValid (vot_of u.fleet.reps 0 p))
        (check_sdc p v)
unfolding check_sdc
check_sdc_one p v is_smr one valid some_bytes =
    subst (Ends ⊥ _) (sym (is_send ∙ send_pipe_one p v one valid.count_in some_bytes)) (
      ap (λ bytes. v.fleet.calls ++ (write_to (ext_pipe v p).fd_out bytes ∷ []))
          (copy_buffer_lem n valid (omega arith)
            ∙ ap (λ k. take k (contents pipe)) (sym (length-contents pipe))
            ∙ take-whole (contents pipe)),
      ap contents there
          ∙ contents-advanced pipe n (omega arith)
          ∙ ap (λ k. drop k (contents pipe)) (sym (length-contents pipe))
          ∙ drop-whole (contents pipe),
      subst IsValid (sym there) (advanced-IsValid n valid),
    )
  where
    pipe : VotePipe
    pipe = vot_of v.fleet.reps 0 p

    n : ℕ
    n = held v.fleet.reps 0 p

    is_send : check_sdc p v ≡ send_pipe p 0 v
    is_send =
        let nonzero : (held v.fleet.reps 0 p == 0) ≡ false = ground arith in
        simp (bytes_ready_one v p one valid.count_in, nonzero, is_smr) refl

    there : vot_of (change_vot v.fleet.reps 0 p (λ _. advanced pipe n)) 0 p ≡ advanced pipe n
    there = set_ring v p (advanced pipe n) valid

-- An empty ring takes bytes that fit.
fill_empty :
    (pipe : VotePipe) (bytes : List ℕ)
    → IsValid pipe
    → pipe.buff_count ≡ 0
    → 0 < length bytes
    → length bytes < max_vote_pipe_buff
    → ((pipe_to_buff (got bytes) pipe).0 ≡ ok)
      × (contents (pipe_to_buff (got bytes) pipe).1 ≡ bytes)
unfolding Fifo.put
fill_empty pipe bytes valid empty some_bytes fits =
    let e = pipe_to_buff_refines (got bytes) valid in
    let nothing : contents pipe ≡ [] =
      is_nil (contents pipe) (omega (arith, length-contents pipe)) in
    let some_read : ltb 0 (length bytes) ≡ true = ground arith in
    let room : ltb (length bytes) max_vote_pipe_buff ≡ true = ground arith in
    let put : Fifo.put max_vote_pipe_buff (got bytes) [] ≡ (ok, bytes) = ground arith in
    let all = e ∙ ap (Fifo.put max_vote_pipe_buff (got bytes)) nothing ∙ put in
    (ap (λ r. r.0) all, ap (λ r. r.1) all)
  where
    is_nil : (xs : List ℕ) → length xs ≡ 0 → xs ≡ []
    is_nil [] h = refl
    is_nil (x ∷ xs) h = absurd (omega arith)

-- With one replica under SMR, if its ring on pipe `p` is valid and empty, and a read() yields bytes that
-- are fewer than 4096, the voter runs on: it issues exactly one write(), of the same bytes, to the
-- external pipe, and the ring is valid and empty again.
pub process_from_rep_lem :
    (w : Answers) (p : ℕ) (v : Sequential) (bytes : List ℕ)
    → v.rep_type ≡ smr
    → v.rep_count ≡ 1
    → IsValid (vot_of v.fleet.reps 0 p)
    → held v.fleet.reps 0 p ≡ 0
    → w.read (length v.fleet.calls) (vot_of v.fleet.reps 0 p).fd_in ≡ got bytes
    → 0 < length bytes
    → length bytes < max_vote_pipe_buff
    → Ends ⊥
        (λ u.
          (u.fleet.calls ≡ v.fleet.calls ++ (write_to (ext_pipe v p).fd_out bytes ∷ []))
          × (contents (vot_of u.fleet.reps 0 p) ≡ [])
          × IsValid (vot_of u.fleet.reps 0 p))
        (process_from_rep w 0 p v)
unfolding process_from_rep
process_from_rep_lem w p v bytes is_smr one valid empty reads some_bytes fits =
    subst (Ends ⊥ _) (sym voted) (
      weaken-Ends ⊥ _ _ (check_sdc p stored)
        (λ u h. (
          h.0 ∙ ap (λ b. v.fleet.calls ++ (write_to (ext_pipe v p).fd_out b ∷ [])) held_bytes,
          h.1,
          h.2,
        ))
        (check_sdc_one p stored is_smr one
          (subst IsValid (sym there) (pipe_to_buff-IsValid (got bytes) valid)) some_held))
  where
    pipe : VotePipe
    pipe = vot_of v.fleet.reps 0 p

    filled : VotePipe
    filled = (pipe_to_buff (got bytes) pipe).1

    stored : Sequential
    stored = with_fleet (λ f. record f { reps = change_vot f.reps 0 p (λ _. filled) }) v

    took : ((pipe_to_buff (got bytes) pipe).0 ≡ ok) × (contents filled ≡ bytes)
    took = fill_empty pipe bytes valid empty some_bytes fits

    there : vot_of stored.fleet.reps 0 p ≡ filled
    there = set_ring v p filled valid

    held_bytes : contents (vot_of stored.fleet.reps 0 p) ≡ bytes
    held_bytes = ap contents there ∙ took.1

    some_held : 0 < held stored.fleet.reps 0 p
    some_held =
        let size = ap length held_bytes in
        omega (arith, length-contents (vot_of stored.fleet.reps 0 p), size, some_bytes)

    outcome : Status → Sequential → Run Sequential
    outcome s u = elim s [
      | ok ↦ check_sdc p (with_fleet (balance_reps w.kernel u.rep_count u.replica_priority) u)
      | error ↦ running u
    ]

    voted : process_from_rep w 0 p v ≡ check_sdc p stored
    voted =
        ap
          (λ r. outcome (pipe_to_buff r pipe).0 (
            with_fleet
              (λ f. record f { reps = change_vot f.reps 0 p (λ _. (pipe_to_buff r pipe).1) }) v))
          reads
        ∙ ap (λ s. outcome s stored) took.0
        ∙ ap (λ f. check_sdc p (record v { fleet = f }))
            (balance_one w v.rep_count stored.fleet v.replica_priority one)
