-- ===== src/Mapper/Announce.antt =====
-- What the message of the mapper lists, and one more place in it.
use s3res.Prelude.{
  ℕ, zero, suc, ◌+◌, ◌≤◌, ◌<◌, ltb, ◌==◌, ◌&&◌, Bool, true, Option, some, List, get_or, set, length,
  length-set, get_or-set_self, get_or-set_ne, ◌≡◌, ◌≢◌, refl, sym, ap, ap₂, ◌∙◌, arith, one,
  lt-cases, inl, inr,
}
use s3res.CommTypes.MapUpdate.{MapUpdate}
use s3res.Mapping.Grid.{grid_num}
use s3res.Mapper.{Sightings, obs_thres, max_obstacles, announce}

-- How often the first `n` obstacles of the message are the place.
abbrev pub listed : ℕ → MapUpdate → ℕ → ℕ → ℕ
listed zero msg x y = 0
listed (suc n) msg x y =
    one (get_or msg.obs_x n 0 == x && (get_or msg.obs_y n 0 == y)) + listed n msg x y

abbrev pub obstacles : MapUpdate → ℕ → ℕ → ℕ
obstacles msg x y = listed msg.obs_count msg x y

-- The arrays have their size.
pub record Sized (msg : MapUpdate) : Type 0 where
  pub size_x : length msg.obs_x ≡ max_obstacles
  pub size_y : length msg.obs_y ≡ max_obstacles

-- The obstacles of the message are places of the grid.
abbrev pub OnGrid : MapUpdate → Type 0
OnGrid msg =
    (i : ℕ)
    → i < msg.obs_count
    → (get_or msg.obs_x i 0 < grid_num) × (get_or msg.obs_y i 0 < grid_num)

-- `announce` on a message with room.
pub record Announced (x y : ℕ) (msg : MapUpdate) : Type 0 where
  pub result : MapUpdate
  pub computes : announce x y msg ≡ some result
  pub sized : Sized result
  pub one_more : result.obs_count ≡ msg.obs_count + 1
  pub lists : (a c : ℕ) → obstacles result a c ≡ one (x == a && (y == c)) + obstacles msg a c
  pub on_grid : x < grid_num → y < grid_num → OnGrid msg → OnGrid result

pub listed_last :
    (n : ℕ) (msg : MapUpdate) (x y : ℕ)
    → listed (n + 1) msg x y
      ≡ one (get_or msg.obs_x n 0 == x && (get_or msg.obs_y n 0 == y)) + listed n msg x y
listed_last n msg x y = let next : n + 1 ≡ suc n = omega arith in ap (λ k. listed k msg x y) next

-- Behind the first `n` obstacles nothing counts.
listed-set :
    (n k : ℕ) (msg : MapUpdate) (x y a c count : ℕ)
    → n ≤ k
    → listed n
        (record msg { obs_x = set msg.obs_x k x; obs_y = set msg.obs_y k y; obs_count = count })
        a
        c
      ≡ listed n msg a c
listed-set zero k msg x y a c count h = refl
listed-set (suc n) k msg x y a c count h =
    let other : k ≢ n = λ e. omega arith in
    rw
      (
        get_or-set_ne msg.obs_x x 0 other,
        get_or-set_ne msg.obs_y y 0 other,
        listed-set n k msg x y a c count (omega arith),
      )
      refl

pub announce-Announced :
    (x y : ℕ) (msg : MapUpdate) → Sized msg → msg.obs_count < max_obstacles → Announced x y msg
unfolding announce
announce-Announced x y msg sized room = record {
  result = after;
  computes =
      let has_room : ltb msg.obs_count max_obstacles ≡ true = ground arith in rw has_room refl;
  sized = record {
    size_x = length-set msg.obs_x msg.obs_count x ∙ sized.size_x;
    size_y = length-set msg.obs_y msg.obs_count y ∙ sized.size_y;
  };
  one_more = refl;
  lists = λ a c.
      listed_last msg.obs_count after a c
      ∙ ap₂ (λ placed before. placed + before)
          (ap₂ (λ u v. one (u == a && (v == c)))
            (get_or-set_self msg.obs_x msg.obs_count x 0 (omega (arith, sized.size_x)))
            (get_or-set_self msg.obs_y msg.obs_count y 0 (omega (arith, sized.size_y))))
          (listed-set msg.obs_count msg.obs_count msg x y a c (msg.obs_count + 1) (omega arith));
  on_grid = λ x_in y_in before i lt. (
    placed_in msg.obs_x x i x_in lt (omega (arith, sized.size_x)) (λ lt'. (before i lt').0),
    placed_in msg.obs_y y i y_in lt (omega (arith, sized.size_y)) (λ lt'. (before i lt').1),
  );
}
  where
    placed_in :
        (xs : List ℕ) (v i : ℕ)
        → v < grid_num
        → i < msg.obs_count + 1
        → msg.obs_count < length xs
        → (i < msg.obs_count → get_or xs i 0 < grid_num)
        → get_or (set xs msg.obs_count v) i 0 < grid_num
    placed_in xs v i v_in lt inside before = elim (lt-cases i msg.obs_count) [
      | inl (_, earlier) ↦
          let other : msg.obs_count ≢ i = λ e. omega arith in
          rw (get_or-set_ne xs v 0 other) (before earlier)
      | inr (_, later) ↦
          let last : msg.obs_count ≡ i = omega arith in
          rw (sym last, get_or-set_self xs msg.obs_count v 0 inside) v_in
    ]

    after : MapUpdate
    after = record msg {
      obs_x = set msg.obs_x msg.obs_count x;
      obs_y = set msg.obs_y msg.obs_count y;
      obs_count = msg.obs_count + 1;
    }

-- What is known as an obstacle.
abbrev pub known : Sightings → ℕ → ℕ → Bool
known s x y = ltb obs_thres (s.obstacle_map x y)

-- The operation gives a state of which `P` holds.
pub record Gives {A : Type 0} (P : A → Type 0) (o : Option A) : Type 0 where
  pub result : A
  pub computes : o ≡ some result
  pub holds : P result
