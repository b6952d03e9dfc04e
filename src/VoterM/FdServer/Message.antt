-- ===== src/VoterM/FdServer/Message.antt =====
-- The message to a new replica: its pipes, and the descriptors that travel beside them.
use Prim.Native.String.{String}
use s3res.Prelude.{
  ℕ, zero, suc, ◌+◌, ◌≡◌, refl, ap, ap₂, ◌∙◌, sym, List, [], ◌∷◌, ◌++◌, map, length, length-append,
  ◌==◌, if◌then◌else◌, arith,
}
use s3res.CommTypes.{TypedPipe}
use s3res.Sys.{send_fds}
use s3res.VoterM.State.{ReplicaR}
use s3res.VoterM.FdServer.{send_pipes_in, send_pipes_out, cmsg_fds, send_fds_call}

-- the end of a pipe that the replica gets
abbrev pub its_fd : TypedPipe → ℕ
its_fd pipe = if pipe.fd_in == 0 then pipe.fd_out else pipe.fd_in

in_fds :
    (n i : ℕ) (fds : List ℕ) (info : List String)
    → map its_fd (send_pipes_in n i fds info) ≡ cmsg_fds n i fds
unfolding send_pipes_in cmsg_fds
in_fds zero i fds info = refl
in_fds (suc n) i fds info = ap₂ ◌∷◌ (ground arith) (in_fds n (i + 1) fds info)

out_fds :
    (n i : ℕ) (fds : List ℕ) (info : List String)
    → map its_fd (send_pipes_out n i fds info) ≡ cmsg_fds n i fds
unfolding send_pipes_out cmsg_fds
out_fds zero i fds info = refl
out_fds (suc n) i fds info = ap₂ ◌∷◌ (ground arith) (out_fds n (i + 1) fds info)

map-append : (f : TypedPipe → ℕ) (xs ys : List TypedPipe) → map f (xs ++ ys) ≡ map f xs ++ map f ys
map-append f [] ys = refl
map-append f (x ∷ xs) ys = ap (λ l. f x ∷ l) (map-append f xs ys)

length-in : (n i : ℕ) (fds : List ℕ) (info : List String) → length (send_pipes_in n i fds info) ≡ n
unfolding send_pipes_in
length-in zero i fds info = refl
length-in (suc n) i fds info = ap suc (length-in n (i + 1) fds info)

length-out :
    (n i : ℕ) (fds : List ℕ) (info : List String) → length (send_pipes_out n i fds info) ≡ n
unfolding send_pipes_out
length-out zero i fds info = refl
length-out (suc n) i fds info = ap suc (length-out n (i + 1) fds info)

-- `sendFDS` sends one entry for each pipe of the replica, inputs and outputs, with its cpu and its
-- priority; and the descriptors that travel out of band are exactly those that the entries name, one
-- for each, in the same order.
pub send_fds_call-matches :
    (rep : ReplicaR) (rep_info_in rep_info_out : List String)
    → (pipes : List TypedPipe) × (send_fds_call rep rep_info_in rep_info_out
        ≡ send_fds pipes rep.pinned_cpu rep.priority (map its_fd pipes))
      × (length pipes ≡ rep.in_pipe_count + rep.out_pipe_count)
unfolding send_fds_call
send_fds_call-matches rep info_in info_out =
    let ins = send_pipes_in rep.in_pipe_count 0 rep.fd_ins info_in in
    let outs = send_pipes_out rep.out_pipe_count 0 rep.fd_outs info_out in
    (
      ins ++ outs,
      ap (send_fds (ins ++ outs) rep.pinned_cpu rep.priority) (
          sym (
            map-append its_fd ins outs
            ∙ ap₂ ◌++◌ (in_fds rep.in_pipe_count 0 rep.fd_ins info_in)
                (out_fds rep.out_pipe_count 0 rep.fd_outs info_out))),
      length-append ins outs
          ∙ ap₂ ◌+◌ (length-in rep.in_pipe_count 0 rep.fd_ins info_in)
              (length-out rep.out_pipe_count 0 rep.fd_outs info_out),
    )
