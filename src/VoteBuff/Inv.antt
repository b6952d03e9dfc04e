-- ===== src/VoteBuff/Inv.antt =====
-- The ring invariant of `struct vote_pipe`, and that the operations of vote_buff.c keep it.
use s3res.Prelude.{
  ℕ, ◌<◌, ◌≡◌, ◌∙◌, Bool, true, false, some, List, arith, length, if◌then◌else◌, length-write_at,
  length-write_round,
}
use s3res.Sys.{ReadResult, failed, got, Status, Syscall}
use s3res.VoteBuff.{
  VotePipe, max_vote_pipe_buff, reset_vote_pipe, store_bytes, pipe_to_buff, fake_to_pipe,
  buff_to_pipe, copy_pipe,
}

-- One slot always stays free: `pipeToBuff` refuses what would fill the buffer.
pub record IsValid (p : VotePipe) : Type 0 where
  pub storage : length p.buffer ≡ max_vote_pipe_buff
  pub index_in : p.buff_index < max_vote_pipe_buff
  pub count_in : p.buff_count < max_vote_pipe_buff

length-if_same {ℓ} :
    {A : Type ℓ} (b : Bool) (xs ys : List A) {n : ℕ}
    → length xs ≡ n
    → length ys ≡ n
    → length (if b then xs else ys) ≡ n
length-if_same true xs ys p q = p
length-if_same false xs ys p q = q

length-store_bytes :
    (p : VotePipe) (bytes : List ℕ) → length (store_bytes p bytes) ≡ length p.buffer
length-store_bytes p bytes =
    length-if_same _ _ _ (length-write_round _ _ _ _) (length-write_at _ _ _)

-- `pipeToBuff` keeps the ring invariant, whatever read() yields: the buffer stays of full size, its
-- index inside, and one slot free.
pub pipe_to_buff-IsValid :
    (r : ReadResult) {p : VotePipe} → IsValid p → IsValid (pipe_to_buff r p).1
unfolding pipe_to_buff
pipe_to_buff-IsValid failed v = v
pipe_to_buff-IsValid (got bytes) {p} v = ground (arith, length-store_bytes p bytes)

pub fake_to_pipe-IsValid :
    (n : ℕ) {p q : VotePipe} → IsValid p → fake_to_pipe p n ≡ some q → IsValid q
unfolding fake_to_pipe
fake_to_pipe-IsValid n v e = ground arith

pub buff_to_pipe-IsValid :
    (fd n : ℕ) {p q : VotePipe} {s : Status} {calls : List Syscall}
    → IsValid p
    → buff_to_pipe p fd n ≡ some (s, calls, q)
    → IsValid q
unfolding buff_to_pipe fake_to_pipe
buff_to_pipe-IsValid fd n v e = ground arith

pub reset_vote_pipe-IsValid : {p : VotePipe} → IsValid p → IsValid (reset_vote_pipe p).1
unfolding reset_vote_pipe
reset_vote_pipe-IsValid v = ground arith

pub copy_pipe-IsValid : {d s : VotePipe} → IsValid d → IsValid s → IsValid (copy_pipe d s)
unfolding copy_pipe
copy_pipe-IsValid {d} {s} v w = record {
  storage = length-if_same _ _ _ (length-write_at _ _ _) (length-write_round _ _ _ _) ∙ v.storage;
  index_in = w.index_in;
  count_in = w.count_in;
}
