-- ===== src/CommTypes/MapUpdate/Bytes.antt =====
-- The bytes of a map update: its ints, and the coordinates of its obstacles.
use s3res.Prelude.{
  ℕ, zero, suc, ◌+◌, ◌*◌, ◌/◌, ◌%◌, ◌^◌, ◌<◌, ◌≤◌, ◌≡◌, refl, sym, ap, ◌∙◌, false, List, [], ◌∷◌,
  ◌++◌, append-nil, append_assoc, length, length-append, get_or, ltb, arith,
}
use s3res.CommTypes.MapUpdate.{MapUpdate, max_typed_pipe_buff, put_obstacles}

-- The coordinates of `n` obstacles from `index` on.
abbrev pub pairs : MapUpdate → ℕ → ℕ → List ℕ
pairs msg zero index = []
pairs msg (suc n) index =
    get_or msg.obs_x index 0 ∷ get_or msg.obs_y index 0 ∷ pairs msg n (index + 1)

pub length-pairs : (msg : MapUpdate) (n index : ℕ) → length (pairs msg n index) ≡ 2 * n
length-pairs msg zero index = refl
length-pairs msg (suc n) index = omega (arith, length-pairs msg n (index + 1))

-- As long as the buffer has room, every obstacle is written.
pub put_obstacles_fit :
    (msg : MapUpdate) (n index : ℕ) (buffer : List ℕ)
    → length buffer + 2 * n ≤ max_typed_pipe_buff
    → put_obstacles msg n index buffer ≡ buffer ++ pairs msg n index
unfolding put_obstacles
put_obstacles_fit msg zero index buffer fits = sym (append-nil buffer)
put_obstacles_fit msg (suc n) index buffer fits =
    let two = get_or msg.obs_x index 0 ∷ get_or msg.obs_y index 0 ∷ [] in
    let len : length (buffer ++ two) ≡ length buffer + 2 = length-append buffer two in
    let room : ltb max_typed_pipe_buff (length (buffer ++ two)) ≡ false = ground arith in
    rw room (
      put_obstacles_fit msg n (index + 1) (buffer ++ two) (omega (arith, len, fits))
      ∙ append_assoc buffer two (pairs msg n (index + 1)))

pub pairs_x :
    (msg : MapUpdate) (n index i : ℕ)
    → i < n
    → get_or (pairs msg n index) (i * 2) 0 ≡ get_or msg.obs_x (index + i) 0
pairs_x msg zero index i h = absurd (omega arith)
pairs_x msg (suc n) index zero h = ap (λ k. get_or msg.obs_x k 0) (omega arith)
pairs_x msg (suc n) index (suc i) h =
    ap (λ k. get_or (pairs msg (suc n) index) k 0) two_on
    ∙ pairs_x msg n (index + 1) i (omega arith)
    ∙ ap (λ k. get_or msg.obs_x k 0) (omega arith)
  where
    two_on : suc i * 2 ≡ suc (suc (i * 2))
    two_on = omega arith

pub pairs_y :
    (msg : MapUpdate) (n index i : ℕ)
    → i < n
    → get_or (pairs msg n index) (i * 2 + 1) 0 ≡ get_or msg.obs_y (index + i) 0
pairs_y msg zero index i h = absurd (omega arith)
pairs_y msg (suc n) index zero h = ap (λ k. get_or msg.obs_y k 0) (omega arith)
pairs_y msg (suc n) index (suc i) h =
    ap (λ k. get_or (pairs msg (suc n) index) k 0) two_on
    ∙ pairs_y msg n (index + 1) i (omega arith)
    ∙ ap (λ k. get_or msg.obs_y k 0) (omega arith)
  where
    two_on : suc i * 2 + 1 ≡ suc (suc (i * 2 + 1))
    two_on = omega arith

pub int_lem :
    (x : ℕ)
    → x < 2 ^ 32
    → x / 2 ^ 24 % 2 ^ 8 * 2 ^ 24
        + x / 2 ^ 16 % 2 ^ 8 * 2 ^ 16
        + x / 2 ^ 8 % 2 ^ 8 * 2 ^ 8
        + x % 2 ^ 8
      ≡ x
int_lem x h = omega arith
