-- ===== src/VoterD/Masking.antt =====
-- The vote of three replicas, put together: what leaves the voter, or whom it replaces.
use s3res.Prelude.{
  ℕ, ◌<◌, ◌≡◌, ◌≢◌, ◌⊎◌, inl, inr, refl, sym, subst, ap, ap₂, if◌then◌else◌, ◌∙◌, List, [], ◌∷◌,
  ◌++◌, ◌==◌, take, false, arith,
}
use s3res.Sys.{write_to}
use s3res.VoteBuff.Ring.{contents}
use s3res.VoteBuff.RepType.{Replication, unreplicated, smr, dmr, tmr, rep_type_error}
use s3res.Replicas.{Replica, vot_of}
use s3res.Replicas.Access.{held-inside}
use s3res.Replicas.Count.{bytes_ready}
use s3res.Replicas.Least.{bytes_ready_le}
use s3res.Replicas.Valid.{FleetIsValid}
use s3res.VoterD.{Desktop, World, ext_of}
use s3res.VoterD.Data.{send_pipe}
use s3res.VoterD.Recover.{restart_prep}
use s3res.Runs.{Run, running, Ends, weaken-Ends}
use s3res.VoterD.Send.{send_pipe_lem}
use s3res.VoterD.Vote.{Choice, nobody, send, replace, tmr_choice, check_sdc}
use s3res.VoterD.Majority.{SameFront, OthersAgree, Ready, Masks, sends, replaces, tmr_choice-Masks}

-- The rings that hold the bytes that are ready.
pub rings-Ready :
    (reps : List Replica) (p : ℕ)
    → FleetIsValid reps
    → 0 < bytes_ready reps 3 p
    → Ready reps p (bytes_ready reps 3 p)
rings-Ready reps p v some_bytes r below =
    let enough = bytes_ready_le reps 3 p r below in
    let (inside, within) = held-inside reps r p (omega (arith, enough, some_bytes)) in
    (v r inside p within, enough)

abbrev chosen : World → ℕ → Desktop → Choice → Run Desktop
chosen w p d nobody = running d
chosen w p d (send r) = send_pipe p r d
chosen w p d (replace restartee restarter) = restart_prep w restartee restarter d

-- `checkSDC` of three replicas is what the vote chooses.
check_sdc_tmr :
    (w : World) (p : ℕ) (d : Desktop)
    → d.rep_type ≡ tmr
    → d.rep_count ≡ 3
    → 0 < bytes_ready d.fleet.reps 3 p
    → check_sdc w p d
      ≡ chosen w p d (tmr_choice d.fleet.reps 3 p (bytes_ready d.fleet.reps 3 p) 3 0)
unfolding check_sdc
check_sdc_tmr w p d is_tmr three some_bytes =
    ap₂
      (λ (t : Replication) (count : ℕ).
        let bytes_avail = bytes_ready d.fleet.reps count p in
        if bytes_avail == 0 then running d else elim t [
          | smr ↦ send_pipe p 0 d
          | dmr ↦ send_pipe p 0 d
          | tmr ↦ chosen w p d (tmr_choice d.fleet.reps count p bytes_avail count 0)
          | unreplicated ↦ running d
          | rep_type_error ↦ running d
        ])
      is_tmr three
    ∙ some_ready
  where
    some_ready :
        (if bytes_ready d.fleet.reps 3 p == 0
          then running d
          else chosen w p d (tmr_choice d.fleet.reps 3 p (bytes_ready d.fleet.reps 3 p) 3 0))
        ≡ chosen w p d (tmr_choice d.fleet.reps 3 p (bytes_ready d.fleet.reps 3 p) 3 0)
    some_ready =
        let nonzero : (bytes_ready d.fleet.reps 3 p == 0) ≡ false = ground arith in rw nonzero refl

-- The external pipe gets the bytes that replica `g` holds, in one write().
abbrev pub Sends : ℕ → ℕ → Desktop → Run Desktop → Type 0
Sends p g d run =
    Ends ⊥
      (λ u.
        u.fleet.calls
        ≡ d.fleet.calls
          ++ (write_to (ext_of d p).fd_out
                (take (bytes_ready d.fleet.reps 3 p) (contents (vot_of d.fleet.reps g p)))
              ∷ []))
      run

send_pipe-Sends :
    (p c g : ℕ) (d : Desktop)
    → d.rep_count ≡ 3
    → FleetIsValid d.fleet.reps
    → 0 < bytes_ready d.fleet.reps 3 p
    → c < 3
    → SameFront (bytes_ready d.fleet.reps 3 p) (vot_of d.fleet.reps c p) (vot_of d.fleet.reps g p)
    → Sends p g d (send_pipe p c d)
send_pipe-Sends p c g d three v some_bytes c_in same =
    weaken-Ends ⊥ _ _ (send_pipe p c d)
      (λ u h. h.0 ∙ ap (λ bytes. d.fleet.calls ++ (write_to (ext_of d p).fd_out bytes ∷ [])) bytes)
      (send_pipe_lem p c d v ready (rw three c_in))
  where
    ready : 0 < bytes_ready d.fleet.reps d.rep_count p
    ready = rw three some_bytes

    bytes :
        take (bytes_ready d.fleet.reps d.rep_count p) (contents (vot_of d.fleet.reps c p))
        ≡ take (bytes_ready d.fleet.reps 3 p) (contents (vot_of d.fleet.reps g p))
    bytes =
        ap (λ count. take (bytes_ready d.fleet.reps count p) (contents (vot_of d.fleet.reps c p)))
          three
        ∙ same.1

-- With three replicas and valid rings, if bytes are ready on pipe `p` and all replicas but `f` hold the
-- same ones, in rings that start at the same index, then for each other replica `g` the vote ends in one of two ways: it runs to its end with
-- exactly one write(), of the bytes that `g` holds, to the external pipe; or it replaces `f`, from one
-- of the others.
pub check_sdc_masks :
    (w : World) (p f g : ℕ) (d : Desktop)
    → d.rep_type ≡ tmr
    → d.rep_count ≡ 3
    → FleetIsValid d.fleet.reps
    → f < 3
    → g < 3
    → g ≢ f
    → 0 < bytes_ready d.fleet.reps 3 p
    → OthersAgree d.fleet.reps p (bytes_ready d.fleet.reps 3 p) f
    → Sends p g d (check_sdc w p d)
      ⊎ ((b : ℕ) × (b < 3) × (b ≢ f) × (check_sdc w p d ≡ restart_prep w f b d))
check_sdc_masks w p f g d is_tmr three v f_in g_in other some_bytes agree =
    subst Voted (sym (check_sdc_tmr w p d is_tmr three some_bytes)) (
      of_choice _ (
        tmr_choice-Masks d.fleet.reps p (bytes_ready d.fleet.reps 3 p) f f_in
          (rings-Ready d.fleet.reps p v some_bytes) agree))
  where
    Voted : Run Desktop → Type 0
    Voted run = Sends p g d run ⊎ ((b : ℕ) × (b < 3) × (b ≢ f) × (run ≡ restart_prep w f b d))

    of_choice :
        (c : Choice)
        → Masks d.fleet.reps p (bytes_ready d.fleet.reps 3 p) f c
        → Voted (chosen w p d c)
    of_choice _ (sends {c} c_in same) =
        inl (send_pipe-Sends p c g d three v some_bytes c_in (same g g_in other))
    of_choice _ (replaces {b} b_in apart) = inr (b, b_in, apart, refl)
