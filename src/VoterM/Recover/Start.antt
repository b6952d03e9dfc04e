-- ===== src/VoterM/Recover/Start.antt =====
-- `startReplicas` keeps the answers that the voter has collected, and writes nothing.
use Prim.Native.String.{String}
use mathlib.Core.Option.{some-injective}
use s3res.Prelude.{
  subst, if◌then◌else◌, ℕ, zero, suc, ◌+◌, ◌≡◌, refl, Bool, true, false, Bool-cases, Option, some,
  Option-cases, inl, inr, for_range, List, [], ◌∷◌, ◌++◌, set,
}
use s3res.Prelude.Int.{pos}
use s3res.Sys.{Syscall, kill_pid, restart_signal}
use s3res.VoterM.State.{ReplicaR, Voter, rep_at, update_rep, issue}
use s3res.Sys.Writes.{writes}
use s3res.VoterM.State.Keeps.{
  Keeps, same-Keeps, chain-Keeps, for_range-Keeps, issue-Keeps, update-Keeps, writes_quiet,
}
use s3res.Sys.{Client}
use s3res.VoterM.FdServer.{accept_send_fds}
use s3res.VoterM.Recover.{
  Spawn, open_in, open_out, fork_replica, connect, connect_all, start_replicas, neighbour,
}

open_in-Keeps : (s : Spawn) (index p : ℕ) (v : Voter) → Keeps v (open_in s index p v)
unfolding open_in
open_in-Keeps s index p v = elim (Option-cases (s.pipe_in index p)) [
  | inl e ↦ rw (e, open_in) (same-Keeps v)
  | inr ((a, b), e) ↦
      rw (e, open_in)
        (update-Keeps v index (λ r. record r { fd_ins = set r.fd_ins p b }) _ v.calls (λ r. refl)
          (λ r. refl) refl)
]

open_out-Keeps : (s : Spawn) (index p : ℕ) (v : Voter) → Keeps v (open_out s index p v)
unfolding open_out
open_out-Keeps s index p v = elim (Option-cases (s.pipe_out index p)) [
  | inl e ↦ rw (e, open_out) (same-Keeps v)
  | inr ((a, b), e) ↦
      rw (e, open_out)
        (update-Keeps v index (λ r. record r { fd_outs = set r.fd_outs p a }) _ v.calls (λ r. refl)
          (λ r. refl) refl)
]

-- The request to a replica: a fork of the voter's own, or a signal to the neighbour.
abbrev asked : Bool → ℕ → Voter → Voter
asked forking index v =
    if forking
    then fork_replica index v
    else issue (kill_pid (pos (rep_at v.replicas (neighbour v)).pid) restart_signal ∷ []) v

asked-Keeps : (forking : Bool) (index : ℕ) (v : Voter) → Keeps v (asked forking index v)
unfolding fork_replica
asked-Keeps true index v = issue-Keeps _ v refl
asked-Keeps false index v = issue-Keeps _ v refl

accept_quiet :
    (c : Client) (rep : ReplicaR) (ins outs : List String)
    → writes (accept_send_fds c rep ins outs).1 ≡ []
unfolding accept_send_fds
accept_quiet c rep ins outs = elim (Bool-cases c.accepted) [ inl e ↦ rw e | inr e ↦ rw e ]

connect-Keeps :
    (s : Spawn) (forking : Bool) (index : ℕ) (v : Voter) {u : Voter}
    → connect s forking index v ≡ some u
    → Keeps v u
unfolding connect
connect-Keeps s forking index v h = elim (Option-cases answer.0) [
  | inl e ↦ absurd (cc (rw (e, connect) at h))
  | inr (pid, e) ↦ subst (Keeps v) (some-injective _ _ (rw (e, connect) at h)) (
      chain-Keeps (asked-Keeps forking index v) (
        update-Keeps (asked forking index v) index (λ r. record r { pid = pid }) _ _ (λ r. refl)
          (λ r. refl)
          (writes_quiet (asked forking index v).calls answer.1 (
            accept_quiet (s.client index) (rep_at v.for_reps index) v.rep_info_in v.rep_info_out))))
]
  where
    answer : Option ℕ × List Syscall
    answer = accept_send_fds (s.client index) (rep_at v.for_reps index) v.rep_info_in v.rep_info_out

connect_all-Keeps :
    (s : Spawn) (forking : Bool) (n index : ℕ) (v : Voter) {u : Voter}
    → connect_all s forking n index v ≡ some u
    → Keeps v u
unfolding connect_all
connect_all-Keeps s forking zero index v h = subst (Keeps v) (some-injective _ _ h) (same-Keeps v)
connect_all-Keeps s forking (suc n) index v h = elim (Option-cases (connect s forking index v)) [
  | inl e ↦ absurd (cc (rw (e, connect_all) at h))
  | inr (next, e) ↦
      chain-Keeps (connect-Keeps s forking index v e)
        (connect_all-Keeps s forking n (index + 1) next (rw (e, connect_all) at h))
]

-- Starting replicas loses no answer that has been collected, and writes nothing.
pub start_replicas-Keeps :
    (s : Spawn) (forking : Bool) (index n : ℕ) (v : Voter) {u : Voter}
    → start_replicas s forking index n v ≡ some u
    → Keeps v u
unfolding start_replicas
start_replicas-Keeps s forking index n v h =
    chain-Keeps
      (chain-Keeps
        (for_range-Keeps (λ i u. for_range u.in_pipe_count 0 (open_in s i) u) n index v
          (λ i u. for_range-Keeps (open_in s i) u.in_pipe_count 0 u (open_in-Keeps s i)))
        (for_range-Keeps (λ i u. for_range u.out_pipe_count 0 (open_out s i) u) n index _
          (λ i u. for_range-Keeps (open_out s i) u.out_pipe_count 0 u (open_out-Keeps s i))))
      (connect_all-Keeps s forking n index _ h)

-- Each new replica connects, takes its descriptors, and tells its pid.
abbrev pub Responsive : Spawn → Type 0
Responsive s =
    (r : ℕ)
    → ((s.client r).accepted ≡ true)
      × ((s.client r).sent ≡ true)
      × ((pid : ℕ) × ((s.client r).pid ≡ some pid))

-- the voter behind a connection that tells `pid`
abbrev connected : Spawn → Bool → ℕ → ℕ → Voter → Voter
connected s forking index pid v =
    let start = asked forking index v in
    record start {
      replicas = update_rep start.replicas index (λ r. record r { pid = pid });
      calls =
          start.calls
          ++ (accept_send_fds (s.client index) (rep_at v.for_reps index) v.rep_info_in
              v.rep_info_out).1;
    }

answered :
    (c : Client) (rep : ReplicaR) (ins outs : List String) (pid : ℕ)
    → c.accepted ≡ true
    → c.sent ≡ true
    → c.pid ≡ some pid
    → (accept_send_fds c rep ins outs).0 ≡ some pid
unfolding accept_send_fds
answered c rep ins outs pid yes_accepted yes_sent told = rw (yes_accepted, yes_sent) told

connect-total :
    (s : Spawn) (forking : Bool) (index : ℕ) (v : Voter)
    → Responsive s
    → (u : Voter) × (connect s forking index v ≡ some u)
unfolding connect
connect-total s forking index v live =
    let (yes_accepted, yes_sent, told) = live index in
    let e =
      answered (s.client index) (rep_at v.for_reps index) v.rep_info_in v.rep_info_out told.0
        yes_accepted yes_sent told.1 in
    (connected s forking index told.0 v, rw (e, connect) refl)

connect_all-total :
    (s : Spawn) (forking : Bool) (n index : ℕ) (v : Voter)
    → Responsive s
    → (u : Voter) × (connect_all s forking n index v ≡ some u)
unfolding connect_all
connect_all-total s forking zero index v live = (v, refl)
connect_all-total s forking (suc n) index v live =
    let (next, e) = connect-total s forking index v live in
    let (u, e') = connect_all-total s forking n (index + 1) next live in (u, rw (e, connect_all) e')

-- With replicas that respond, the start always succeeds.
pub start_replicas-total :
    (s : Spawn) (forking : Bool) (index n : ℕ) (v : Voter)
    → Responsive s
    → (u : Voter) × (start_replicas s forking index n v ≡ some u)
unfolding start_replicas
start_replicas-total s forking index n v live = connect_all-total s forking n index _ live
