-- ===== src/VoterM/State/Keeps.antt =====
-- What an operation that recovers a replica leaves alone: every answer that has been collected, what
-- the voter knows of its surroundings, and the bytes it has written.
use s3res.Prelude.{ℕ, ◌+◌, ◌≡◌, refl, ap, ◌∙◌, List, [], ◌++◌, for_range, for_range_inv, append-nil}
use s3res.Sys.{Syscall}
use s3res.VoterM.State.{ReplicaR, Voter, rep_at, update_rep, issue}
use s3res.Sys.Writes.{writes, writes-append}
use s3res.VoterM.State.Lemmas.{update_rep_keeps}

pub record Keeps (u v : Voter) : Type 0 where
  pub counts : (r : ℕ) → (rep_at v.replicas r).buff_counts ≡ (rep_at u.replicas r).buff_counts
  pub buffers : (r : ℕ) → (rep_at v.replicas r).buffers ≡ (rep_at u.replicas r).buffers
  pub rep_count : v.rep_count ≡ u.rep_count
  pub in_pipe_count : v.in_pipe_count ≡ u.in_pipe_count
  pub out_pipe_count : v.out_pipe_count ≡ u.out_pipe_count
  pub ext_out_fds : v.ext_out_fds ≡ u.ext_out_fds
  pub fault_index : v.fault_index ≡ u.fault_index
  pub written : writes v.calls ≡ writes u.calls

pub same-Keeps : (v : Voter) → Keeps v v
same-Keeps v = record {
  counts = λ r. refl;
  buffers = λ r. refl;
  rep_count = refl;
  in_pipe_count = refl;
  out_pipe_count = refl;
  ext_out_fds = refl;
  fault_index = refl;
  written = refl;
}

pub chain-Keeps : {u v w : Voter} → Keeps u v → Keeps v w → Keeps u w
chain-Keeps h k = record {
  counts = λ r. k.counts r ∙ h.counts r;
  buffers = λ r. k.buffers r ∙ h.buffers r;
  rep_count = k.rep_count ∙ h.rep_count;
  in_pipe_count = k.in_pipe_count ∙ h.in_pipe_count;
  out_pipe_count = k.out_pipe_count ∙ h.out_pipe_count;
  ext_out_fds = k.ext_out_fds ∙ h.ext_out_fds;
  fault_index = k.fault_index ∙ h.fault_index;
  written = k.written ∙ h.written;
}

-- A loop keeps what each of its rounds keeps.
pub for_range-Keeps :
    (body : ℕ → Voter → Voter) (n i : ℕ) (v : Voter)
    → ((k : ℕ) (u : Voter) → Keeps u (body k u))
    → Keeps v (for_range n i body v)
for_range-Keeps body n i v keep =
    for_range_inv (λ _ u. Keeps v u) body n i (i + n) v refl (λ k u _ _ h. chain-Keeps h (keep k u))
      (same-Keeps v)

-- Calls that write nothing add nothing to what is written.
pub writes_quiet :
    (before cs : List Syscall) → writes cs ≡ [] → writes (before ++ cs) ≡ writes before
writes_quiet before cs h =
    writes-append before cs ∙ ap (λ l. writes before ++ l) h ∙ append-nil (writes before)

-- An assignment to one replica that changes neither its counts nor its buffers.
pub update-Keeps :
    (v : Voter) (r : ℕ) (f : ReplicaR → ReplicaR) (for_reps' : List ReplicaR)
    (calls' : List Syscall)
    → ((rep : ReplicaR) → (f rep).buff_counts ≡ rep.buff_counts)
    → ((rep : ReplicaR) → (f rep).buffers ≡ rep.buffers)
    → writes calls' ≡ writes v.calls
    → Keeps v
        (record v { replicas = update_rep v.replicas r f; for_reps = for_reps'; calls = calls' })
update-Keeps v r f for_reps' calls' hc hb hw = record {
  counts = update_rep_keeps v.replicas r f (λ rep. rep.buff_counts) hc;
  buffers = update_rep_keeps v.replicas r f (λ rep. rep.buffers) hb;
  rep_count = refl;
  in_pipe_count = refl;
  out_pipe_count = refl;
  ext_out_fds = refl;
  fault_index = refl;
  written = hw;
}

pub issue-Keeps : (cs : List Syscall) (v : Voter) → writes cs ≡ [] → Keeps v (issue cs v)
issue-Keeps cs v h = record {
  counts = λ r. refl;
  buffers = λ r. refl;
  rep_count = refl;
  in_pipe_count = refl;
  out_pipe_count = refl;
  ext_out_fds = refl;
  fault_index = refl;
  written = writes_quiet v.calls cs h;
}
