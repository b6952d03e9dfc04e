-- ===== src/VoteBuff/Refine.antt =====
-- A valid `struct vote_pipe` is a bounded FIFO of bytes, whatever its index.
use s3res.Prelude.{
  ℕ, ◌+◌, ◌-◌, ◌%◌, ◌<◌, ◌≤◌, ◌≡◌, refl, sym, ◌∙◌, some, [], ◌∷◌, arith, take, drop, take-tabulate,
  tabulate_ext,
}
use s3res.Sys.{ReadResult, failed, got, ok, error, write_to}
use s3res.VoteBuff.Fifo
use s3res.VoteBuff.{
  VotePipe, max_vote_pipe_buff, pipe_to_buff, copy_buffer, fake_to_pipe, buff_to_pipe, copy_pipe,
}
use s3res.VoteBuff.Inv.{IsValid}
use s3res.VoteBuff.Ring.{
  peek, contents, length-contents, contents_store, copy_buffer-tabulate, contents_advance,
  copy_place,
}

-- `pipeToBuff` on a valid pipe does to its bytes what the FIFO does: whatever read() yields, and
-- wherever the ring's index stands, the status is the FIFO's and the buffered bytes are its queue.
pub pipe_to_buff_refines :
    (r : ReadResult) {p : VotePipe}
    → IsValid p
    → let (s, q) = pipe_to_buff r p in (s, contents q) ≡ Fifo.put max_vote_pipe_buff r (contents p)
unfolding pipe_to_buff Fifo.put
pipe_to_buff_refines failed v = refl
pipe_to_buff_refines (got bytes) {p} v = ground (arith, length-contents p, contents_store p bytes v)

-- The bytes gathered for a write are the oldest ones, in order.
pub copy_buffer_lem :
    {p : VotePipe} (n : ℕ) → IsValid p → n ≤ p.buff_count → copy_buffer p n ≡ take n (contents p)
copy_buffer_lem {p} n v h =
    copy_buffer-tabulate p n v (omega (arith, v)) ∙ sym (take-tabulate n p.buff_count (peek p) h)

-- `buffToPipe` of at most the bytes that wait writes exactly the oldest `n`, in one write() to the
-- given descriptor, reports success, and leaves the rest queued; the replicas that only advance
-- by `fakeToPipe` are left with the same pipe.
pub buff_to_pipe_refines :
    (fd n : ℕ) {p : VotePipe}
    → IsValid p
    → n ≤ p.buff_count
    → (q : VotePipe) × (buff_to_pipe p fd n ≡ some (ok, write_to fd (take n (contents p)) ∷ [], q))
      × (fake_to_pipe p n ≡ some q)
      × (contents q ≡ drop n (contents p))
unfolding buff_to_pipe fake_to_pipe
buff_to_pipe_refines fd n {p} v h =
    let q : VotePipe = record p {
      buff_index = (p.buff_index + n) % max_vote_pipe_buff;
      buff_count = p.buff_count - n;
    } in
    (q, ground (arith, copy_buffer_lem n v h), ground arith, contents_advance p n h)

-- A request for more than waits is refused: nothing is written and nothing changes.
pub buff_to_pipe_short :
    (fd n : ℕ) (p : VotePipe) → p.buff_count < n → buff_to_pipe p fd n ≡ some (error, [], p)
unfolding buff_to_pipe
buff_to_pipe_short fd n p h = ground arith

-- `copyPipe` between valid pipes makes the destination hold the source's bytes at the source's
-- index, and touches neither its descriptors nor its type.
pub copy_pipe_lem :
    {d s : VotePipe}
    → IsValid d
    → IsValid s
    → let q = copy_pipe d s in
      (contents q ≡ contents s)
      × (q.buff_index ≡ s.buff_index)
      × (q.fd_in ≡ d.fd_in)
      × (q.fd_out ≡ d.fd_out)
      × (q.rep_info ≡ d.rep_info)
unfolding copy_pipe
copy_pipe_lem {d} {s} v w = (
  tabulate_ext s.buff_count (peek (copy_pipe d s)) (peek s) (λ i h. copy_place d s i v w h),
  refl,
  refl,
  refl,
  refl,
)
