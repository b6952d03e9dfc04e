-- ===== src/Mapper/Resend.antt =====
-- All known obstacles are sent again.
use s3res.Prelude.{
  ℕ, zero, suc, ◌+◌, ◌≤◌, ◌<◌, ltb, ◌==◌, ◌&&◌, false, Option, some, get_or, for_range,
  for_range_inv, ◌≡◌, refl, ap, ◌∙◌, arith, one, total, total-next, total-none, total-part, square,
  square-le, square-add, square-pick, square-zero, passed, one-passed, Bool-cases, inl, inr,
  if◌then◌else◌,
}
use s3res.CommTypes.MapUpdate.{MapUpdate}
use s3res.Mapping.Grid.{grid_num}
use s3res.Mapper.{Sightings, obs_thres, max_obstacles, announce, on_some, with_msg, resend_all}
use s3res.Mapper.Scan.{Told}
use s3res.Mapper.Announce.{listed, obstacles, Sized, OnGrid, announce-Announced, known, Gives}

-- The first `n` obstacles of a message are at most `n` places.
listed-square : (n : ℕ) (msg : MapUpdate) → square grid_num (listed n msg) ≤ n
listed-square zero msg = omega (arith, square-zero grid_num (λ a c. 0) (λ a c. refl))
listed-square (suc n) msg =
    let x = get_or msg.obs_x n 0 in
    let y = get_or msg.obs_y n 0 in
    omega (
      arith,
      square-add grid_num (λ a c. one (x == a && (y == c))) (listed n msg),
      square-pick grid_num x y,
      listed-square n msg,
    )

module _ (s : Sightings) where
  -- how many places of a row are known
  abbrev row : ℕ → ℕ → ℕ
  row i j = one (known s i j)

  abbrev pub known_places : ℕ
  known_places = square grid_num row

  -- The state before the round (i, j) of the loops.
  pub record Resent (i j : ℕ) (t : Sightings) : Type 0 where
    pub same : (a c : ℕ) → t.obstacle_map a c ≡ s.obstacle_map a c
    pub sized : Sized t.send_msg
    pub on_grid : OnGrid t.send_msg
    pub lists :
        (a c : ℕ)
        → c < grid_num
        → obstacles t.send_msg a c ≡ one (passed i j a c && known s a c) + obstacles s.send_msg a c
    pub counts :
        t.send_msg.obs_count
        ≡ s.send_msg.obs_count + (total j (row i) + total i (λ k. total grid_num (row k)))

  abbrev resend_one : ℕ → ℕ → Option Sightings → Option Sightings
  resend_one i j = on_some (λ t.
      if ltb obs_thres (t.obstacle_map i j)
      then on_some (with_msg t) (announce i j t.send_msg)
      else some t)

  -- The places up to here are not more than all.
  part_of :
      (i j : ℕ)
      → i < grid_num
      → j < grid_num
      → total (j + 1) (row i) + total i (λ k. total grid_num (row k)) ≤ known_places
  part_of i j i_in j_in =
      let rows = total-part grid_num (i + 1) (λ k. total grid_num (row k)) (omega arith) in
      let columns = total-part grid_num (j + 1) (row i) (omega arith) in
      let split = total-next i (λ k. total grid_num (row k)) in omega arith

  Resent-step :
      (i j : ℕ) (st : Option Sightings)
      → s.send_msg.obs_count + known_places ≤ max_obstacles
      → i < grid_num
      → j < grid_num
      → Gives (Resent i j) st
      → Gives (Resent i (j + 1)) (resend_one i j st)
  Resent-step i j st room i_in j_in h = elim (Bool-cases (known s i j)) [
    | inl e ↦
        let here : one (known s i j) ≡ 1 = rw e refl in
        let said =
          announce-Announced i j h.result.send_msg h.holds.sized
            (omega (arith, h.holds.counts, part_of i j i_in j_in, total-next j (row i))) in
        record {
          result = record h.result { send_msg = said.result };
          computes =
              ap (resend_one i j) h.computes
              ∙ rw (ap (ltb obs_thres) (h.holds.same i j) ∙ e)
                  (ap (on_some (with_msg h.result)) said.computes);
          holds = record {
            same = h.holds.same;
            sized = said.sized;
            on_grid = said.on_grid i_in j_in h.holds.on_grid;
            lists = λ a c c_in.
                let hit : one (known s i j && (i == a && (j == c))) ≡ one (i == a && (j == c)) =
                  rw e refl in
                omega (
                  arith,
                  said.lists a c,
                  h.holds.lists a c c_in,
                  one-passed (known s) i j (j + 1) a c refl,
                );
            counts = omega (arith, said.one_more, h.holds.counts, total-next j (row i));
          };
        }
    | inr e ↦
        let gone : one (known s i j) ≡ 0 = rw e refl in
        record {
          result = h.result;
          computes = rw (h.computes, h.holds.same i j, e) refl;
          holds = record {
            same = h.holds.same;
            sized = h.holds.sized;
            on_grid = h.holds.on_grid;
            lists = λ a c c_in.
                let miss : one (known s i j && (i == a && (j == c))) ≡ 0 = rw e refl in
                omega (arith, h.holds.lists a c c_in, one-passed (known s) i j (j + 1) a c refl);
            counts = omega (arith, h.holds.counts, total-next j (row i));
          };
        }
  ]

  -- Past the last column the next row begins.
  Resent-row : (i : ℕ) (t : Sightings) → Resent i grid_num t → Resent (i + 1) 0 t
  Resent-row i t h = record {
    same = h.same;
    sized = h.sized;
    on_grid = h.on_grid;
    lists = λ a c c_in.
        let row_end : passed i grid_num a c ≡ passed (i + 1) 0 a c = ground arith in
        h.lists a c c_in ∙ ap (λ p. one (p && known s a c) + obstacles s.send_msg a c) row_end;
    counts =
        omega
          (arith, h.counts, total-next i (λ k. total grid_num (row k)), total-none (row (i + 1)));
  }

  -- Every known obstacle of the grid is listed once more, and nothing else, if the message has room.
  pub resend_all-Resent :
      Sized s.send_msg
      → OnGrid s.send_msg
      → s.send_msg.obs_count + known_places ≤ max_obstacles
      → Gives (Resent grid_num 0) (resend_all s)
  unfolding resend_all
  resend_all-Resent sized on_grid room =
      for_range_inv (λ i st. Gives (Resent i 0) st)
        (λ i st. for_range grid_num 0 (λ j st. resend_one i j st) st) grid_num 0 grid_num (some s)
        refl
        (λ i st _ i_in h.
          let columns =
            for_range_inv (λ j st. Gives (Resent i j) st) (λ j st. resend_one i j st) grid_num 0
              grid_num st refl (λ j st _ j_in k. Resent-step i j st room i_in j_in k) h in
          record {
            result = columns.result;
            computes = columns.computes;
            holds = Resent-row i columns.result columns.holds;
          })
        (record {
          result = s;
          computes = refl;
          holds = record {
            same = λ a c. refl;
            sized = sized;
            on_grid = on_grid;
            lists = λ a c c_in.
                let none_yet : passed 0 0 a c ≡ false = ground arith in rw none_yet (omega arith);
            counts = omega (arith, total-none (row 0), total-none (λ k. total grid_num (row k)));
          };
        })

-- A frame makes at most as many places known as it has ranges.
pub known_places-Told : (s t : Sightings) (k : ℕ) → Told s k t → known_places t ≤ known_places s + k
known_places-Told s t k h = omega (
  arith,
  square-le grid_num (row t) (λ a c. row s a c + obstacles t.send_msg a c)
      (λ a c. omega (arith, h.tells a c)),
  square-add grid_num (row s) (obstacles t.send_msg),
  listed-square t.send_msg.obs_count t.send_msg,
  h.at_most,
)
