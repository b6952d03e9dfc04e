-- ===== src/Mapper/Restart.antt =====
-- A planner that begins anew learns what the mapper knows.
use s3res.Prelude.{
  ℕ, zero, suc, ◌+◌, ◌*◌, ◌≤◌, ◌<◌, ltb, ◌==◌, ◌&&◌, ◌||◌, Bool, true, false, some, get_or, ◌≡◌,
  refl, sym, ap, ◌∙◌, arith, one, total-none, passed,
}
use s3res.CommTypes.MapUpdate.{MapUpdate, rounds}
use s3res.CommTypes.Structs.{RangePoseData}
use s3res.Mapping.{Doubles}
use s3res.Mapping.Grid.{PointI, grid_num}
use s3res.AStar.{ObstacleMap}
use s3res.AStar.Loop.{mark_obstacles}
use s3res.Mapper.{
  Sightings, Mapper, Trig, max_obstacles, obs_thres, range_count, on_some, update_map, tell,
  pose_after, resend_if, resend_all, scan_ranges, with_pose,
}
use s3res.Mapper.Announce.{listed, listed_last, obstacles, Sized, OnGrid, known, Gives}
use s3res.Mapper.Scan.{Told, scan_ranges-Told}
use s3res.Mapper.Resend.{known_places, known_places-Told, Resent, resend_all-Resent}

-- What the planner makes of a message: each listed place is an obstacle from then on.
mark_obstacles-listed :
    (msg : MapUpdate) (base now : ObstacleMap) (n index : ℕ)
    → index + n ≡ msg.obs_count
    → OnGrid msg
    → ((a c : ℕ) → now a c ≡ (base a c || ltb 0 (listed index msg a c)))
    → (after : ObstacleMap) × (mark_obstacles msg n index now ≡ some after)
      × ((a c : ℕ) → after a c ≡ (base a c || ltb 0 (obstacles msg a c)))
unfolding mark_obstacles
mark_obstacles-listed msg base now zero index count on_grid h =
    let same : index ≡ msg.obs_count = omega arith in
    (now, refl, (λ a c. h a c ∙ ap (λ k. base a c || ltb 0 (listed k msg a c)) same))
mark_obstacles-listed msg base now (suc n) index count on_grid h =
    let x = get_or msg.obs_x index 0 in
    let y = get_or msg.obs_y index 0 in
    let (x_in, y_in) = on_grid index (omega arith) in
    let inside : (ltb x grid_num && ltb y grid_num) ≡ true = ground arith in
    let (after, computes, marks) =
      mark_obstacles-listed msg base (λ a b. a == x && (b == y) || now a b) n (index + 1)
        (omega arith) on_grid
        (λ a c.
          ap (λ t. a == x && (c == y) || t) (h a c)
          ∙ marked a x c y (base a c) (listed index msg a c)
          ∙ ap (λ k. base a c || ltb 0 k) (sym (listed_last index msg a c))) in
    (after, rw (inside, computes) refl, marks)
  where
    marked :
        (a x c y : ℕ) (b : Bool) (k : ℕ)
        → (a == x && (c == y) || (b || ltb 0 k)) ≡ (b || ltb 0 (one (x == a && (y == c)) + k))
    marked a x c y b k = ground arith

module _ {Score : Type 0} (d : Doubles Score) (trig : Trig Score) where
  -- The pose is not an obstacle.
  listed-with_pose :
      (pose : PointI) (s : Sightings) (n a c : ℕ)
      → listed n (with_pose d trig pose s) a c ≡ listed n s.send_msg a c
  listed-with_pose pose s zero a c = refl
  listed-with_pose pose s (suc n) a c =
      ap (λ k. one (get_or s.send_msg.obs_x n 0 == a && (get_or s.send_msg.obs_y n 0 == c)) + k)
        (listed-with_pose pose s n a c)

  -- The state of the mapper after a frame, and its message, which lists what is known.
  record Renewed (frame : RangePoseData Score) (m : Mapper) : Type 0 where
    state : Mapper
    msg : MapUpdate
    computes : update_map d trig frame m ≡ some (state, msg)
    fits : msg.obs_count ≤ max_obstacles
    on_grid : OnGrid msg
    lists :
        (a c : ℕ)
        → a < grid_num
        → c < grid_num
        → ltb 0 (obstacles msg a c) ≡ known state.sightings a c

  update_map-Renewed :
      (frame : RangePoseData Score) (m : Mapper) (sized : Sized m.sightings.send_msg)
      → m.resending_all ≡ true
      → known_places m.sightings + 2 * range_count ≤ max_obstacles
      → Renewed frame m
  unfolding update_map
  update_map-Renewed frame m sized resending room = record {
    state = record m {
      sightings = record all.result { send_msg = with_pose d trig pose all.result };
      resending_all = false;
      insert_sdc = false;
    };
    msg = with_pose d trig pose all.result;
    computes = ap (tell d trig pose m) found;
    fits = omega (
      arith,
      all.holds.counts,
      scan.holds.at_most,
      fewer,
      total-none (λ j. one (known scan.result grid_num j)),
    );
    on_grid = all.holds.on_grid;
    lists = λ a c a_in c_in.
        let all_passed : passed grid_num 0 a c ≡ true = ground arith in
        let again = rw all_passed at (all.holds.lists a c c_in) in
        ap (ltb 0) (listed-with_pose pose all.result all.result.send_msg.obs_count a c)
        ∙ told _ _ _ (known scan.result a c) again (scan.holds.tells a c)
        ∙ ap (ltb obs_thres) (sym (all.holds.same a c));
  }
    where
      scan : Gives (Told m.sightings range_count) (scan_ranges d trig frame m.sightings)
      scan = scan_ranges-Told d trig frame m.sightings sized

      fewer : known_places scan.result ≤ known_places m.sightings + range_count
      fewer = known_places-Told m.sightings scan.result range_count scan.holds

      all : Gives (Resent scan.result grid_num 0) (resend_all scan.result)
      all =
          resend_all-Resent scan.result scan.holds.sized scan.holds.on_grid
            (omega (arith, scan.holds.at_most, fewer))

      pose : PointI
      pose = pose_after d trig frame m

      found :
          on_some (resend_if d trig m.resending_all) (scan_ranges d trig frame m.sightings)
          ≡ some all.result
      found = rw (scan.computes, resending) all.computes

      told : (n before old : ℕ) (k : Bool) → n ≡ one k + before → one k ≡ old + before → ltb 0 n ≡ k
      told n before old k e f = ground arith

  -- When the mapper is asked for all obstacles, and knows at most 2010 of the places, it sends a message;
  -- a planner whose map has no obstacle yet marks those of the message, and its map then has an obstacle
  -- at a place of the grid if and only if the mapper knows one there.
  pub mark_obstacles-update_map :
      (frame : RangePoseData Score) (m : Mapper) (sized : Sized m.sightings.send_msg)
      → m.resending_all ≡ true
      → known_places m.sightings + 2 * range_count ≤ max_obstacles
      → (state : Mapper) × (msg : MapUpdate) × (map : ObstacleMap) × (update_map d trig frame m
          ≡ some (state, msg))
        × (mark_obstacles msg (rounds msg.obs_count) 0 (λ _ _. false) ≡ some map)
        × ((a c : ℕ) → a < grid_num → c < grid_num → map a c ≡ known state.sightings a c)
  mark_obstacles-update_map frame m sized resending room =
      let sent = update_map-Renewed frame m sized resending room in
      let (map, computes, marks) =
        mark_obstacles-listed sent.msg (λ _ _. false) (λ _ _. false) sent.msg.obs_count 0
          (omega arith) sent.on_grid (λ a c. refl) in
      let all : rounds sent.msg.obs_count ≡ sent.msg.obs_count =
        (let fits = sent.fits in ground arith) in
      (
        sent.state,
        sent.msg,
        map,
        sent.computes,
        rw all computes,
        (λ a c a_in c_in. marks a c ∙ sent.lists a c a_in c_in),
      )
