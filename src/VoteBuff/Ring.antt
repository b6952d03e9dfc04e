-- ===== src/VoteBuff/Ring.antt =====
-- The places of the ring: what stands at each after the copies of vote_buff.c.
use s3res.Prelude.{
  ℕ, ◌+◌, ◌-◌, ◌%◌, ◌<◌, ◌≤◌, ◌≡◌, refl, sym, ap, ap₂, ◌∙◌, inl, inr, List, ◌++◌, arith, length,
  get_or, take, drop, slice, lt-cases, get_or-write_at_in, get_or-write_at_below,
  get_or-write_at_above, get_or-write_round_start, get_or-write_round_middle,
  get_or-write_round_end, length-take, length-drop, get_or-take, get_or-drop, tabulate,
  tabulate_ext, tabulate-add, tabulate-get_or, length-tabulate, length-slice, get_or-slice,
  slice-tabulate, drop-tabulate,
}
use s3res.VoteBuff.{VotePipe, max_vote_pipe_buff, store_bytes, copy_buffer, copy_pipe}
use s3res.VoteBuff.Inv.{IsValid}

-- the byte `i` places behind the oldest
abbrev pub peek : VotePipe → ℕ → ℕ
peek p i = get_or p.buffer ((p.buff_index + i) % max_vote_pipe_buff) 0

-- the bytes that wait in the buffer, oldest first
abbrev pub contents : VotePipe → List ℕ
contents p = tabulate p.buff_count (peek p)

-- What `store_bytes` leaves at each place of the ring.
module _ (p : VotePipe) (bytes : List ℕ) (v : IsValid p)
    (fits : p.buff_count + length bytes < max_vote_pipe_buff) where
  abbrev end_index : ℕ
  end_index = (p.buff_index + p.buff_count) % max_vote_pipe_buff

  abbrev wrapped : ℕ
  wrapped = (end_index + length bytes) % max_vote_pipe_buff

  abbrev part_read : ℕ
  part_read = length bytes - wrapped

  peek_store_old :
      (i : ℕ)
      → i < p.buff_count
      → get_or (store_bytes p bytes) ((p.buff_index + i) % max_vote_pipe_buff) 0 ≡ peek p i
  peek_store_old i h =
      let q = (p.buff_index + i) % max_vote_pipe_buff in
      elim (lt-cases wrapped end_index) [
        | inl (t, w) ↦ rw t (
            get_or-write_round_middle p.buffer end_index (take part_read bytes)
              (drop part_read bytes) q 0 (omega (arith, length-drop part_read bytes, v))
              (omega (arith, v)))
        | inr (t, w) ↦ rw t (elim (lt-cases q end_index) [
          | inl (_, below) ↦ get_or-write_at_below p.buffer end_index bytes q 0 below
          | inr (_, over) ↦ get_or-write_at_above p.buffer end_index bytes q 0 (omega (arith, v))
        ])
      ]

  peek_store_new :
      (j : ℕ)
      → j < length bytes
      → get_or (store_bytes p bytes) ((p.buff_index + (p.buff_count + j)) % max_vote_pipe_buff) 0
        ≡ get_or bytes j 0
  peek_store_new j h =
      let q = (p.buff_index + (p.buff_count + j)) % max_vote_pipe_buff in
      elim (lt-cases wrapped end_index) [
        | inl (t, w) ↦ rw t (elim (lt-cases j part_read) [
          | inl (_, first) ↦
              get_or-write_round_end p.buffer end_index (take part_read bytes)
                (drop part_read bytes) q 0 (omega (arith, length-drop part_read bytes, v))
                (omega (arith, v)) (omega (arith, length-take part_read bytes, v))
                (omega (arith, v))
              ∙ get_or-take part_read (q - end_index) bytes 0 (omega (arith, v))
              ∙ ap (λ k. get_or bytes k 0) (omega (arith, v))
          | inr (_, second) ↦
              get_or-write_round_start p.buffer end_index (take part_read bytes)
                (drop part_read bytes) q 0 (omega (arith, length-drop part_read bytes, v))
                (omega (arith, v))
              ∙ get_or-drop part_read q bytes 0
              ∙ ap (λ k. get_or bytes k 0) (omega (arith, v))
        ])
        | inr (t, w) ↦ rw t (
            get_or-write_at_in p.buffer end_index bytes q j 0 (omega (arith, v)) h
              (omega (arith, v)))
      ]

pub contents_store :
    (p : VotePipe) (bytes : List ℕ)
    → IsValid p
    → p.buff_count + length bytes < max_vote_pipe_buff
    → tabulate
        (p.buff_count + length bytes)
        (λ i. get_or (store_bytes p bytes) ((p.buff_index + i) % max_vote_pipe_buff) 0)
      ≡ contents p ++ bytes
contents_store p bytes v fits =
    tabulate-add p.buff_count (length bytes) after
    ∙ ap₂ ◌++◌ (tabulate_ext p.buff_count after (peek p) (peek_store_old p bytes v fits)) (
        tabulate_ext (length bytes) (λ j. after (p.buff_count + j)) (λ j. get_or bytes j 0)
          (peek_store_new p bytes v fits)
        ∙ tabulate-get_or (length bytes) bytes 0 refl)
  where
    after : ℕ → ℕ
    after i = get_or (store_bytes p bytes) ((p.buff_index + i) % max_vote_pipe_buff) 0

pub length-contents : (p : VotePipe) → length (contents p) ≡ p.buff_count
length-contents p = length-tabulate p.buff_count (peek p)

-- The block or blocks gathered are the ring read off place by place.
pub copy_buffer-tabulate :
    (p : VotePipe) (n : ℕ)
    → IsValid p
    → n ≤ max_vote_pipe_buff
    → copy_buffer p n ≡ tabulate n (peek p)
unfolding copy_buffer
copy_buffer-tabulate p n v h = elim (lt-cases (p.buff_index + n) max_vote_pipe_buff) [
  | inl (t, plain) ↦
      rw t (block p.buff_index n (λ i. i) (omega (arith, v)) (λ i k. omega (arith, v)))
  | inr (t, round) ↦
      let part_write = max_vote_pipe_buff - p.buff_index in
      rw t (
        ap₂ ◌++◌
          (block p.buff_index part_write (λ i. i) (omega (arith, v)) (λ i k. omega (arith, v)))
          (block 0 (n - part_write) (λ i. part_write + i) (omega (arith, v))
            (λ i k. omega (arith, v)))
        ∙ sym (tabulate-add part_write (n - part_write) (peek p))
        ∙ ap (λ k. tabulate k (peek p)) (omega (arith, v)))
]
  where
    block :
        (off k : ℕ) (place : ℕ → ℕ)
        → off + k ≤ length p.buffer
        → ((i : ℕ) → i < k → off + i ≡ (p.buff_index + place i) % max_vote_pipe_buff)
        → slice off k p.buffer ≡ tabulate k (λ i. peek p (place i))
    block off k place fits places =
        slice-tabulate off k p.buffer 0 fits
        ∙ tabulate_ext k (λ i. get_or p.buffer (off + i) 0) (λ i. peek p (place i))
            (λ i below. ap (λ j. get_or p.buffer j 0) (places i below))

-- A read of `n` bytes moves the window on by `n` places.
pub contents_advance :
    (p : VotePipe) (n : ℕ)
    → n ≤ p.buff_count
    → tabulate (p.buff_count - n) (λ i.
      get_or p.buffer (((p.buff_index + n) % max_vote_pipe_buff + i) % max_vote_pipe_buff) 0)
      ≡ drop n (contents p)
contents_advance p n h =
    tabulate_ext (p.buff_count - n) _ (λ i. peek p (n + i))
      (λ i k. ap (λ j. get_or p.buffer j 0) (omega arith))
    ∙ sym (drop-tabulate n p.buff_count (p.buff_count - n) (peek p) (omega arith))

pub copy_place :
    (d s : VotePipe) (i : ℕ)
    → IsValid d
    → IsValid s
    → i < s.buff_count
    → peek (copy_pipe d s) i ≡ peek s i
unfolding copy_pipe
copy_place d s i v w h =
    let count = s.buff_count in
    let index = s.buff_index in
    let part_cpy = max_vote_pipe_buff - index in
    let q = (index + i) % max_vote_pipe_buff in
    let ys = slice index part_cpy s.buffer in
    let zs = slice 0 (count - part_cpy) s.buffer in
    elim (lt-cases (index + count) max_vote_pipe_buff) [
      | inl (t, plain) ↦ rw t (
          get_or-write_at_in d.buffer index (slice index count s.buffer) q (q - index) 0
            (omega (arith, w))
            (omega (arith, w, length-slice index count s.buffer (omega (arith, w))))
            (omega (arith, v, w))
          ∙ get_or-slice index count (q - index) s.buffer 0 (omega (arith, w))
          ∙ ap (λ k. get_or s.buffer k 0) (omega (arith, w)))
      | inr (t, round) ↦ rw t (elim (lt-cases q index) [
        | inl (_, start) ↦
            get_or-write_round_start d.buffer index ys zs q 0
              (omega (arith, w, length-slice 0 (count - part_cpy) s.buffer (omega (arith, w))))
              (omega (arith, v, w))
            ∙ get_or-slice 0 (count - part_cpy) q s.buffer 0 (omega (arith, w))
            ∙ ap (λ k. get_or s.buffer k 0) (omega (arith, w))
        | inr (_, end) ↦
            get_or-write_round_end d.buffer index ys zs q 0
              (omega (arith, w, length-slice 0 (count - part_cpy) s.buffer (omega (arith, w)))) end
              (omega (arith, w, length-slice index part_cpy s.buffer (omega (arith, w))))
              (omega (arith, v, w))
            ∙ get_or-slice index part_cpy (q - index) s.buffer 0 (omega (arith, w))
            ∙ ap (λ k. get_or s.buffer k 0) (omega (arith, w))
      ])
    ]
