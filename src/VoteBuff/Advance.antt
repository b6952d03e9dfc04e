-- ===== src/VoteBuff/Advance.antt =====
-- A pipe of which `n` bytes are taken, by `buffToPipe` or by `fakeToPipe`.
use s3res.Prelude.{ℕ, ◌+◌, ◌-◌, ◌%◌, ◌≤◌, ◌≡◌, some, [], ◌∷◌, drop, arith}
use s3res.Sys.{ok, write_to}
use s3res.VoteBuff.{VotePipe, max_vote_pipe_buff, copy_buffer, fake_to_pipe, buff_to_pipe}
use s3res.VoteBuff.Inv.{IsValid}
use s3res.VoteBuff.Ring.{contents, contents_advance}

abbrev pub advanced : VotePipe → ℕ → VotePipe
advanced pipe n = record pipe {
  buff_index = (pipe.buff_index + n) % max_vote_pipe_buff;
  buff_count = pipe.buff_count - n;
}

pub fake_to_pipe_enough :
    (pipe : VotePipe) (n : ℕ) → n ≤ pipe.buff_count → fake_to_pipe pipe n ≡ some (advanced pipe n)
unfolding fake_to_pipe
fake_to_pipe_enough pipe n h = ground arith

pub buff_to_pipe_enough :
    (pipe : VotePipe) (fd n : ℕ)
    → n ≤ pipe.buff_count
    → buff_to_pipe pipe fd n ≡ some (ok, write_to fd (copy_buffer pipe n) ∷ [], advanced pipe n)
unfolding buff_to_pipe fake_to_pipe
buff_to_pipe_enough pipe fd n h = ground arith

pub contents-advanced :
    (pipe : VotePipe) (n : ℕ)
    → n ≤ pipe.buff_count
    → contents (advanced pipe n) ≡ drop n (contents pipe)
contents-advanced pipe n h = contents_advance pipe n h

pub advanced-IsValid : {pipe : VotePipe} (n : ℕ) → IsValid pipe → IsValid (advanced pipe n)
advanced-IsValid n v = record {
  storage = v.storage;
  index_in = omega arith;
  count_in = omega (arith, v);
}
