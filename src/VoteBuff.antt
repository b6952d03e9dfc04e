-- ===== src/VoteBuff.antt =====
-- voter/vote_buff.c and include/vote_buff.h: the ring buffer that the voter keeps for each pipe of
-- a replica, and the names of the replication types.
use Prim.Native.String.{String}
use text.Mathlib.Text.{◌==◌ as str_eq}
use s3res.Prelude.{
  false, ℕ, ◌+◌, ◌-◌, ◌%◌, Bool, Option, none, some, List, [], ◌∷◌, ◌++◌, ◌==◌, ltb, if◌then◌else◌,
  length, take, drop, slice, write_at,
}
use s3res.Sys.{
  ReadResult, failed, got, Status, ok, error, Syscall, write_to, close_fd, MemCmp, below, same,
  above, memcmp,
}
pub mod RepType
pub mod Fifo
pub mod Inv
pub mod Ring
pub mod Advance
pub mod Refine
pub mod Compare
mod Tests

-- MAX_VOTE_PIPE_BUFF
abbrev pub max_vote_pipe_buff : ℕ
max_vote_pipe_buff = 4096

-- `struct vote_pipe`. The counters are ints that the program keeps at 0 or above.
pub record VotePipe : Type 0 where
  pub rep_info : String
  pub fd_in : ℕ
  pub fd_out : ℕ
  pub timed : Bool
  pub buff_count : ℕ
  pub buff_index : ℕ
  pub buffer : List ℕ

-- what stands in for a pipe out of range
abbrev pub no_pipe : VotePipe
no_pipe = record {
  rep_info = "";
  fd_in = 0;
  fd_out = 0;
  timed = false;
  buff_count = 0;
  buff_index = 0;
  buffer = [];
}

-- `if (fd != 0) close(fd)`
abbrev close_if_set : ℕ → List Syscall
close_if_set fd = if fd == 0 then [] else close_fd fd ∷ []

pub reset_vote_pipe : VotePipe → List Syscall × VotePipe
reset_vote_pipe pipe = (
  close_if_set pipe.fd_in ++ close_if_set pipe.fd_out,
  record pipe { fd_in = 0; fd_out = 0; buff_count = 0; buff_index = 0 },
)

-- The copies of `pipe_to_buff`: two where the bytes go round the end of the buffer, else one.
abbrev pub store_bytes : VotePipe → List ℕ → List ℕ
store_bytes pipe temp_buffer =
    let read_count = length temp_buffer in
    let end_index = (pipe.buff_index + pipe.buff_count) % max_vote_pipe_buff in
    let wrapped = (end_index + read_count) % max_vote_pipe_buff in
    let part_read = read_count - wrapped in
    if ltb wrapped end_index
    then write_at (write_at pipe.buffer end_index (take part_read temp_buffer)) 0
        (drop part_read temp_buffer)
    else write_at pipe.buffer end_index temp_buffer

-- The argument is what `read(pipe->fd_in, temp_buffer, 4096)` does.
pub pipe_to_buff : ReadResult → VotePipe → Status × VotePipe
pipe_to_buff failed pipe = (error, pipe)
pipe_to_buff (got temp_buffer) pipe =
    if ltb 0 (length temp_buffer)
    then if ltb (length temp_buffer) (max_vote_pipe_buff - pipe.buff_count)
      then (
        ok,
        record pipe {
          buffer = store_bytes pipe temp_buffer;
          buff_count = pipe.buff_count + length temp_buffer;
        },
      )
      else (error, pipe)
    else (error, pipe)

-- The first `n` bytes from the index on, gathered in one block or two: what `copyBuffer` copies out
-- and what `buffToPipe` passes to write().
pub copy_buffer : VotePipe → ℕ → List ℕ
copy_buffer pipe n =
    if ltb (pipe.buff_index + n) max_vote_pipe_buff
    then slice pipe.buff_index n pipe.buffer
    else let part_write = max_vote_pipe_buff - pipe.buff_index in
      slice pipe.buff_index part_write pipe.buffer ++ slice 0 (n - part_write) pipe.buffer

-- `none`: the count would fall below zero, where the source's later arithmetic has no meaning.
pub fake_to_pipe : VotePipe → ℕ → Option VotePipe
fake_to_pipe pipe n =
    if ltb pipe.buff_count n
    then none
    else some (record pipe {
      buff_index = (pipe.buff_index + n) % max_vote_pipe_buff;
      buff_count = pipe.buff_count - n;
    })

-- write()'s result is not read by the source.
pub buff_to_pipe : VotePipe → ℕ → ℕ → Option (Status × List Syscall × VotePipe)
buff_to_pipe pipe fd_out n =
    if ltb pipe.buff_count n then some (error, [], pipe) else elim (fake_to_pipe pipe n) [
      | none ↦ none
      | some pipe' ↦ some (ok, write_to fd_out (copy_buffer pipe n) ∷ [], pipe')
    ]

pub compare_buffs : VotePipe → VotePipe → ℕ → MemCmp
compare_buffs pipe_a pipe_b n =
    let a = drop pipe_a.buff_index pipe_a.buffer in
    let b = drop pipe_b.buff_index pipe_b.buffer in
    let part_cmp = max_vote_pipe_buff - pipe_a.buff_index in
    if pipe_a.buff_index == pipe_b.buff_index
    then if ltb (pipe_a.buff_index + n) max_vote_pipe_buff
      then memcmp a b n
      else elim (memcmp a b part_cmp) [
        | same ↦ memcmp pipe_a.buffer pipe_b.buffer (n - part_cmp)
        | below ↦ below
        | above ↦ above
      ]
    else below

-- The destination's other fields stay.
pub copy_pipe : VotePipe → VotePipe → VotePipe
copy_pipe dest_pipe src_pipe =
    let index = src_pipe.buff_index in
    let count = src_pipe.buff_count in
    let part_cpy = max_vote_pipe_buff - index in
    record dest_pipe {
      buff_count = count;
      buff_index = index;
      buffer =
          if ltb (index + count) max_vote_pipe_buff
          then write_at dest_pipe.buffer index (slice index count src_pipe.buffer)
          else write_at (write_at dest_pipe.buffer index (slice index part_cpy src_pipe.buffer)) 0
              (slice 0 (count - part_cpy) src_pipe.buffer);
    }
