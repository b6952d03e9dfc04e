-- ===== src/Sys/Writes.antt =====
-- The bytes that leave the program: the write() calls of a trace.
use s3res.Prelude.{◌≡◌, refl, ap, List, [], ◌∷◌, ◌++◌}
use s3res.Sys.{
  Syscall, write_to, write_past, close_fd, kill_pid, reap, fork_exec, send_fds, set_policy,
}

-- the write() calls of a trace, in order
abbrev pub writes : List Syscall → List Syscall
writes [] = []
writes (write_to fd bytes ∷ cs) = write_to fd bytes ∷ writes cs
writes (write_past fd bytes count ∷ cs) = write_past fd bytes count ∷ writes cs
writes (close_fd fd ∷ cs) = writes cs
writes (kill_pid pid s ∷ cs) = writes cs
writes (reap ∷ cs) = writes cs
writes (fork_exec args ∷ cs) = writes cs
writes (send_fds pipes cpu prio fds ∷ cs) = writes cs
writes (set_policy pid prio ∷ cs) = writes cs

pub writes-append : (xs ys : List Syscall) → writes (xs ++ ys) ≡ writes xs ++ writes ys
writes-append [] ys = refl
writes-append (write_to fd bytes ∷ xs) ys = ap (λ l. write_to fd bytes ∷ l) (writes-append xs ys)
writes-append (write_past fd bytes count ∷ xs) ys =
    ap (λ l. write_past fd bytes count ∷ l) (writes-append xs ys)
writes-append (close_fd fd ∷ xs) ys = writes-append xs ys
writes-append (kill_pid pid s ∷ xs) ys = writes-append xs ys
writes-append (reap ∷ xs) ys = writes-append xs ys
writes-append (fork_exec args ∷ xs) ys = writes-append xs ys
writes-append (send_fds pipes cpu prio fds ∷ xs) ys = writes-append xs ys
writes-append (set_policy pid prio ∷ xs) ys = writes-append xs ys
