-- ===== src/VoteBuff/Tests.antt =====
-- The theorems on vote_buff.c at concrete pipes.
use s3res.Prelude.{
  ℕ, ◌<◌, ◌≡◌, ◌↔◌, true, some, List, [], ◌∷◌, replicate, length-replicate, take, drop, arith,
}
use s3res.Sys.{got, ok, same, write_to}
use s3res.VoteBuff.Fifo
use s3res.VoteBuff.{VotePipe, pipe_to_buff, fake_to_pipe, buff_to_pipe, compare_buffs}
use s3res.VoteBuff.Inv.{IsValid}
use s3res.VoteBuff.Ring.{contents}
use s3res.VoteBuff.Refine.{pipe_to_buff_refines, buff_to_pipe_refines}
use s3res.VoteBuff.Compare.{compare_buffs_iff}

-- A pipe whose bytes go round the end of the buffer.
abbrev pipe_at : ℕ → ℕ → VotePipe
pipe_at index count = record {
  rep_info = "MOV_CMD";
  fd_in = 7;
  fd_out = 0;
  timed = true;
  buff_count = count;
  buff_index = index;
  buffer = replicate 4096 9;
}

pipe_at-IsValid : (index count : ℕ) → index < 4096 → count < 4096 → IsValid (pipe_at index count)
pipe_at-IsValid index count h k = record {
  storage = length-replicate {A = ℕ} 4096 9;
  index_in = h;
  count_in = k;
}

abbrev bytes : List ℕ
bytes = 1 ∷ 2 ∷ 3 ∷ []

pipe_to_buff_refines_example :
    let (s, q) = pipe_to_buff (got bytes) (pipe_at 4090 5) in
    (s, contents q) ≡ Fifo.put 4096 (got bytes) (contents (pipe_at 4090 5))
pipe_to_buff_refines_example =
    pipe_to_buff_refines (got bytes) (pipe_at-IsValid 4090 5 (omega arith) (omega arith))

buff_to_pipe_refines_example :
    (q : VotePipe) × (buff_to_pipe (pipe_at 4090 10) 8 7
      ≡ some (ok, write_to 8 (take 7 (contents (pipe_at 4090 10))) ∷ [], q))
    × (fake_to_pipe (pipe_at 4090 10) 7 ≡ some q)
    × (contents q ≡ drop 7 (contents (pipe_at 4090 10)))
buff_to_pipe_refines_example =
    buff_to_pipe_refines 8 7 (pipe_at-IsValid 4090 10 (omega arith) (omega arith)) (omega arith)

compare_buffs_iff_example : (compare_buffs (pipe_at 4090 10) (pipe_at 4090 12) 8 ≡ same) ↔ (
    (◌≡◌ {A = ℕ} 4090 4090)
    × (take 8 (contents (pipe_at 4090 10)) ≡ take 8 (contents (pipe_at 4090 12))))
compare_buffs_iff_example =
    compare_buffs_iff (pipe_at 4090 10) (pipe_at 4090 12) 8
      (pipe_at-IsValid 4090 10 (omega arith) (omega arith))
      (pipe_at-IsValid 4090 12 (omega arith) (omega arith)) (omega arith) (omega arith)
