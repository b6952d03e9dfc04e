-- ===== src/VoterD/Send.antt =====
-- What `sendPipe` does: the oldest bytes of one replica leave the voter once, and every replica
-- drops as many.
use s3res.Prelude.{
  ℕ, ◌+◌, ◌<◌, ◌≤◌, ◌≡◌, ◌≢◌, ◌⊎◌, get_or, inl, inr, refl, sym, ap, ap₂, ◌∙◌, subst, true, false,
  List, [], ◌∷◌, ◌++◌, length, take, drop, ltb, ◌==◌, lt-cases, Bool-cases, if◌then◌else◌, ==_iff,
  append-nil, arith,
}
use s3res.Sys.{Syscall, write_to}
use s3res.VoteBuff.{VotePipe, copy_buffer}
use s3res.VoteBuff.Advance.{
  advanced, fake_to_pipe_enough, buff_to_pipe_enough, contents-advanced, advanced-IsValid,
}
use s3res.Replicas.Access.{
  held-inside, vot_of-change_vot_self, vot_of-change_vot_ne, vot_of-change_vot_beside,
}
use s3res.VoteBuff.Ring.{contents}
use s3res.VoteBuff.Refine.{copy_buffer_lem}
use s3res.Replicas.{rep_of, vot_of, held, change_vot}
use s3res.Replicas.Count.{bytes_ready}
use s3res.Replicas.Least.{bytes_ready_le}
use s3res.Replicas.Valid.{FleetIsValid, change_vot-FleetIsValid}
use s3res.VoterD.{Desktop, ext_of}
use s3res.VoterD.Data.{send_round, stop_timer, send_pipe}
use s3res.Runs.{Ends, for_run-Ends, weaken-Ends}

-- What `sendPipe` from replica `c` has done before round `k`: `n` bytes of pipe `p` are taken from
-- the replicas below `k`, and written if `c` is one of them.
pub record Sent (n p c k : ℕ) (d u : Desktop) : Type 0 where
  pub taken : (r : ℕ) → r < k → vot_of u.fleet.reps r p ≡ advanced (vot_of d.fleet.reps r p) n
  pub waits : (r : ℕ) → k ≤ r → vot_of u.fleet.reps r p ≡ vot_of d.fleet.reps r p
  pub others : (r q : ℕ) → q ≢ p → vot_of u.fleet.reps r q ≡ vot_of d.fleet.reps r q
  pub written :
      u.fleet.calls
      ≡ d.fleet.calls
        ++ (if ltb c k
            then write_to (ext_of d p).fd_out (copy_buffer (vot_of d.fleet.reps c p) n) ∷ []
            else [])
  pub rest : record u { fleet = d.fleet } ≡ d
  pub valid : FleetIsValid d.fleet.reps → FleetIsValid u.fleet.reps

-- What is written after one more round: by replica `c` in round `c`, and nothing else.
module _ (before calls x : List Syscall) (c k : ℕ)
    (so_far : calls ≡ before ++ (if ltb c k then x else [])) where
  write_now :
      (y : List Syscall) → c ≡ k → y ≡ x → calls ++ y ≡ before ++ (if ltb c (k + 1) then x else [])
  write_now y e same =
      let not_yet : ltb c k ≡ false = ground arith in
      let done : ltb c (k + 1) ≡ true = ground arith in
      ap₂ ◌++◌ (so_far ∙ ap (λ b. before ++ (if b then x else [])) not_yet ∙ append-nil before) same
      ∙ sym (ap (λ b. before ++ (if b then x else [])) done)

  write_not : (c == k) ≡ false → calls ≡ before ++ (if ltb c (k + 1) then x else [])
  write_not e =
      let still : ltb c k ≡ ltb c (k + 1) = ground arith in
      so_far ∙ ap (λ b. before ++ (if b then x else [])) still

-- what a round puts in the place of the pipe
abbrev put : ℕ → ℕ → ℕ → Desktop → VotePipe → VotePipe
put n p k u _ = advanced (vot_of u.fleet.reps k p) n

module _ (n p c : ℕ) (d : Desktop) (some_bytes : 0 < n) where
  -- The pipe of round `k` is as it was, and holds enough.
  round_pipe :
      (k : ℕ) (u : Desktop)
      → n ≤ held d.fleet.reps k p
      → Sent n p c k d u
      → (n ≤ held u.fleet.reps k p)
        × (k < length u.fleet.reps)
        × (p < length (rep_of u.fleet.reps k).vot_pipes)
  round_pipe k u enough s =
      let holds : n ≤ held u.fleet.reps k p =
        subst (λ pipe. n ≤ pipe.buff_count) (sym (s.waits k (omega arith))) enough in
      let (inside, within) = held-inside u.fleet.reps k p (omega arith) in (holds, inside, within)

  -- The assignment of a round, with the calls it makes.
  after_round :
      (k : ℕ) (u : Desktop) (calls : List Syscall)
      → n ≤ held d.fleet.reps k p
      → Sent n p c k d u
      → calls
        ≡ d.fleet.calls
          ++ (if ltb c (k + 1)
              then write_to (ext_of d p).fd_out (copy_buffer (vot_of d.fleet.reps c p) n) ∷ []
              else [])
      → Sent n p c (k + 1) d (record u {
        fleet = record { reps = change_vot u.fleet.reps k p (put n p k u); calls = calls };
      })
  after_round k u calls enough s new_calls = record {
    taken = λ r below. elim (lt-cases r k) [
      | inl (_, earlier) ↦
          vot_of-change_vot_ne u.fleet.reps k p (put n p k u) r p (omega arith) ∙ s.taken r earlier
      | inr (_, at_last) ↦
          let now : k ≡ r = omega arith in
          subst
            (λ t.
              vot_of (change_vot u.fleet.reps k p (put n p k u)) t p
              ≡ advanced (vot_of d.fleet.reps t p) n)
            now
            (vot_of-change_vot_self u.fleet.reps k p (put n p k u) inside.1 inside.2
              ∙ ap (λ pipe. advanced pipe n) (s.waits k (omega arith)))
    ];
    waits = λ r above.
        vot_of-change_vot_ne u.fleet.reps k p (put n p k u) r p (omega arith)
        ∙ s.waits r (omega arith);
    others = λ r q apart.
        vot_of-change_vot_beside u.fleet.reps k p (put n p k u) q r apart ∙ s.others r q apart;
    written = new_calls;
    rest = s.rest;
    valid = λ v.
        change_vot-FleetIsValid u.fleet.reps k p (put n p k u) (advanced-IsValid n) (s.valid v);
  }
    where
      inside :
          (n ≤ held u.fleet.reps k p)
          × (k < length u.fleet.reps)
          × (p < length (rep_of u.fleet.reps k).vot_pipes)
      inside = round_pipe k u enough s

  send_round-Sent :
      (k : ℕ) (u : Desktop)
      → n ≤ held d.fleet.reps k p
      → Sent n p c k d u
      → Ends ⊥ (Sent n p c (k + 1) d) (send_round p c n k u)
  unfolding send_round
  send_round-Sent k u enough s = elim (Bool-cases (c == k)) [
    | inl e ↦
        let same : c ≡ k = (==_iff c k).0 e in
        rw
          (
            e,
            buff_to_pipe_enough (vot_of u.fleet.reps k p) (ext_of u p).fd_out n
                (round_pipe k u enough s).0,
          )
          (after_round k u _ enough s (
            write_now d.fleet.calls u.fleet.calls _ c k s.written _ same (
              ap₂ (λ fd pipe. write_to fd (copy_buffer pipe n) ∷ [])
                (ap (λ t. (ext_of t p).fd_out) s.rest)
                (s.waits k (omega arith) ∙ ap (λ r. vot_of d.fleet.reps r p) (sym same)))))
    | inr e ↦
        rw (e, fake_to_pipe_enough (vot_of u.fleet.reps k p) n (round_pipe k u enough s).0)
          (after_round k u u.fleet.calls enough s
            (write_not d.fleet.calls u.fleet.calls _ c k s.written e))
  ]

not_begun : (n p c : ℕ) (d : Desktop) → Sent n p c 0 d d
not_begun n p c d = record {
  taken = λ r below. absurd (omega arith);
  waits = λ r _. refl;
  others = λ r q _. refl;
  written =
      let none_yet : ltb c 0 ≡ false = ground arith in rw none_yet (sym (append-nil d.fleet.calls));
  rest = refl;
  valid = λ v. v;
}

-- `sendPipe` runs, on any state: no count falls below zero.
pub send_pipe-Sent :
    (p c : ℕ) (d : Desktop)
    → 0 < bytes_ready d.fleet.reps d.rep_count p
    → Ends ⊥
        (Sent (bytes_ready d.fleet.reps d.rep_count p) p c d.rep_count (stop_timer p d))
        (send_pipe p c d)
unfolding send_pipe
send_pipe-Sent p c d some_bytes =
    let some_left : (bytes_ready d.fleet.reps d.rep_count p == 0) ≡ false = ground arith in
    rw some_left (
      for_run-Ends ⊥ (λ k. Sent _ p c k (stop_timer p d)) _ d.rep_count 0 d.rep_count
        (stop_timer p d) (omega arith)
        (λ k u _ below.
          send_round-Sent _ p c (stop_timer p d) some_bytes k u
            (bytes_ready_le d.fleet.reps d.rep_count p k below))
        (not_begun _ p c (stop_timer p d)))

-- Pipe `p` is one of the two whose output stops the timer.
abbrev pub Stops : Desktop → ℕ → Type 0
Stops d p = (p ≡ get_or d.timer_stop_index 0 0) ⊎ (p ≡ get_or d.timer_stop_index 1 0)

stop_timer-Stops : (p : ℕ) (d : Desktop) → Stops d p → (stop_timer p d).timer_started ≡ false
stop_timer-Stops p d stops = ground (arith, stops)

stop_timer-keeps :
    (p : ℕ) (d : Desktop) → ¬ Stops d p → (stop_timer p d).timer_started ≡ d.timer_started
stop_timer-keeps p d not_timed = ground (arith, not_timed)

-- On valid rings, if bytes are ready on pipe `p`, `sendPipe` from a replica of the array runs to its
-- end: it issues one write(), of the oldest bytes that this replica holds and of as many as are
-- ready, to the external pipe; every replica drops as many bytes, whatever its own are; the other
-- pipes hold what they held; and the timer is off afterwards if pipe `p` is one of the two that stop it,
-- and as it was if not.
pub send_pipe_lem :
    (p c : ℕ) (d : Desktop)
    → FleetIsValid d.fleet.reps
    → 0 < bytes_ready d.fleet.reps d.rep_count p
    → c < d.rep_count
    → let n = bytes_ready d.fleet.reps d.rep_count p in
      Ends ⊥
        (λ u.
          (u.fleet.calls
            ≡ d.fleet.calls
              ++ (write_to (ext_of d p).fd_out (take n (contents (vot_of d.fleet.reps c p))) ∷ []))
          × ((r : ℕ)
              → r < d.rep_count
              → contents (vot_of u.fleet.reps r p) ≡ drop n (contents (vot_of d.fleet.reps r p)))
          × ((r q : ℕ) → q ≢ p → vot_of u.fleet.reps r q ≡ vot_of d.fleet.reps r q)
          × (Stops d p → u.timer_started ≡ false)
          × (¬ Stops d p → u.timer_started ≡ d.timer_started))
        (send_pipe p c d)
send_pipe_lem p c d v some_bytes inside =
    weaken-Ends ⊥ (Sent n p c d.rep_count (stop_timer p d)) _ (send_pipe p c d)
      (λ u s. (
        s.written
            ∙ ap₂
                (λ b bytes.
                  d.fleet.calls ++ (if b then write_to (ext_of d p).fd_out bytes ∷ [] else []))
                sent (copy_buffer_lem n (v c place.0 p place.1) (ready c inside)),
        (λ r below.
            ap contents (s.taken r below)
            ∙ contents-advanced (vot_of d.fleet.reps r p) n (ready r below)),
        s.others,
        (λ stops. ap (λ t. t.timer_started) s.rest ∙ stop_timer-Stops p d stops),
        (λ not_timed. ap (λ t. t.timer_started) s.rest ∙ stop_timer-keeps p d not_timed),
      ))
      (send_pipe-Sent p c d some_bytes)
  where
    n : ℕ
    n = bytes_ready d.fleet.reps d.rep_count p

    ready : (r : ℕ) → r < d.rep_count → n ≤ held d.fleet.reps r p
    ready r below = bytes_ready_le d.fleet.reps d.rep_count p r below

    sent : ltb c d.rep_count ≡ true
    sent = ground arith

    place : (c < length d.fleet.reps) × (p < length (rep_of d.fleet.reps c).vot_pipes)
    place =
        let some_held : 0 < held d.fleet.reps c p = omega (arith, some_bytes, ready c inside) in
        held-inside d.fleet.reps c p some_held
