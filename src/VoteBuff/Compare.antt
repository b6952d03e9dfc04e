-- ===== src/VoteBuff/Compare.antt =====
-- `compareBuffs` decides whether two pipes hold the same oldest bytes.
use s3res.Prelude.{
  ℕ, ◌-◌, ◌≤◌, ◌≡◌, sym, ap, ◌∙◌, ◌↔◌, ◌++◌, List, length, arith, take, drop, slice,
  take-append_left, drop-append_left, length-slice, length-drop,
}
use s3res.Sys.{same}
use s3res.Sys.Memcmp.{memcmp_sound, memcmp_complete}
use s3res.VoteBuff.{VotePipe, max_vote_pipe_buff, copy_buffer, compare_buffs}
use s3res.VoteBuff.Inv.{IsValid}
use s3res.VoteBuff.Ring.{contents}
use s3res.VoteBuff.Refine.{copy_buffer_lem}

append_inj :
    (n : ℕ) (xs xs' ys ys' : List ℕ)
    → length xs ≡ n
    → length xs' ≡ n
    → xs ++ ys ≡ xs' ++ ys'
    → (xs ≡ xs') × (ys ≡ ys')
append_inj n xs xs' ys ys' h h' e = (
  sym (take-append_left n xs ys h) ∙ ap (take n) e ∙ take-append_left n xs' ys' h',
  sym (drop-append_left n xs ys h) ∙ ap (drop n) e ∙ drop-append_left n xs' ys' h',
)

abbrev part_cmp : VotePipe → ℕ
part_cmp a = max_vote_pipe_buff - a.buff_index

-- On valid pipes and a count within the buffer: 0 for equal indices and equal gathered bytes only.
module _ (a b : VotePipe) (n : ℕ) (v : IsValid a) (w : IsValid b) (h : n ≤ max_vote_pipe_buff) where
  same-index : compare_buffs a b n ≡ same → a.buff_index ≡ b.buff_index
  unfolding compare_buffs
  same-index e = ground arith

  compare_sound : compare_buffs a b n ≡ same → copy_buffer a n ≡ copy_buffer b n
  unfolding compare_buffs copy_buffer
  compare_sound e = ground (
    arith,
    memcmp_sound n (drop a.buff_index a.buffer) (drop b.buff_index b.buffer),
    memcmp_sound (part_cmp a) (drop a.buff_index a.buffer) (drop b.buff_index b.buffer),
    memcmp_sound (n - part_cmp a) a.buffer b.buffer,
    length-drop a.buff_index a.buffer,
    length-drop b.buff_index b.buffer,
  )

  compare_complete :
      a.buff_index ≡ b.buff_index → copy_buffer a n ≡ copy_buffer b n → compare_buffs a b n ≡ same
  unfolding compare_buffs copy_buffer
  compare_complete i e = ground (
    arith,
    memcmp_complete n (drop a.buff_index a.buffer) (drop b.buff_index b.buffer),
    memcmp_complete (part_cmp a) (drop a.buff_index a.buffer) (drop b.buff_index b.buffer),
    memcmp_complete (n - part_cmp a) a.buffer b.buffer,
    length-drop a.buff_index a.buffer,
    length-drop b.buff_index b.buffer,
    append_inj (part_cmp a) (slice a.buff_index (part_cmp a) a.buffer)
        (slice b.buff_index (part_cmp a) b.buffer) (slice 0 (n - part_cmp a) a.buffer)
        (slice 0 (n - part_cmp a) b.buffer),
    length-slice a.buff_index (part_cmp a) a.buffer,
    length-slice b.buff_index (part_cmp a) b.buffer,
  )

-- On valid pipes whose counts allow it, `compareBuffs` answers 0 exactly when the two rings stand at
-- the same index and their oldest `n` bytes are equal. Bytes that agree at different indices count
-- as a mismatch.
pub compare_buffs_iff :
    (a b : VotePipe) (n : ℕ)
    → IsValid a
    → IsValid b
    → n ≤ a.buff_count
    → n ≤ b.buff_count
    → (compare_buffs a b n ≡ same)
      ↔ ((a.buff_index ≡ b.buff_index) × (take n (contents a) ≡ take n (contents b)))
compare_buffs_iff a b n v w h k =
    let bound : n ≤ max_vote_pipe_buff = omega (arith, v) in
    (
      (λ e. (
        same-index a b n v w bound e,
        sym (copy_buffer_lem n v h) ∙ compare_sound a b n v w bound e ∙ copy_buffer_lem n w k,
      )),
      (λ (i, e).
          compare_complete a b n v w bound i
            (copy_buffer_lem n v h ∙ e ∙ sym (copy_buffer_lem n w k))),
    )
