-- ===== src/AStar/Visit.antt =====
-- The round of the search that visits the neighbors of a node keeps both sets apart and the trails
-- of the nodes whole.
use s3res.Prelude.{
  ℕ, ◌+◌, ◌≤◌, ◌==◌, ◌&&◌, ◌||◌, not, Bool, true, false, Option, none, some, if◌then◌else◌, ◌≡◌,
  refl, sym, arith, one, Bool-cases, inl, inr, ◌⊎◌, OnSome, ◌∙◌, ap,
}
use s3res.Mapping.{
  Doubles, Node, no_node, node, LList, no_list, cell, is_node, find_node, remove_node, add_node,
  each_popped,
}
use s3res.Mapping.Count.{
  count, stands, Tidy, Real, All, is_node-find_node, Tidy-remove_node, All-remove_node,
  count-remove_node, add_node-Added, each_popped_inv,
}
use s3res.AStar.{Point, ObstacleMap}
use s3res.AStar.Search.{visit_neighbor, reach_neighbor}
use s3res.AStar.Neighbors.{may_step}

-- The back links of the node lead to the start, step by step.
abbrev pub Trail : {Score : Type 0} → ObstacleMap → Point → Node Score → Type 0
Trail map pose no_node = ⊥
Trail map pose (node x y _ no_node) = (x ≡ pose.x) × (y ≡ pose.y)
Trail map pose (node x y _ (node a c g b)) =
    (may_step map a c x y ≡ true) × Trail map pose (node a c g b)

module _ {Score : Type 0} (d : Doubles Score) (map : ObstacleMap) (pose goal : Point)
    (closed_set : LList Score) (x y : ℕ) (g : Score) (b : Node Score) where
  -- The open set, with the neighbors `left` still to visit.
  pub record Visited (first left open_set : LList Score) : Type 0 where
    pub real : Real open_set
    pub tidy : Tidy open_set
    pub trails : All (Trail map pose) open_set
    pub apart : (a c : ℕ) → count open_set a c + count closed_set a c ≤ 1
    pub steps : (a c : ℕ) → count left a c ≤ one (may_step map x y a c)
    pub grows : (a c : ℕ) → count first a c ≤ count open_set a c
    pub complete :
        (a c : ℕ)
        → may_step map x y a c ≡ true
        → 1 ≤ count left a c + (count open_set a c + count closed_set a c)

  -- `addNode` needs a list; `removeNode` may leave none.
  List-cases : (l : LList Score) → (l ≡ no_list) ⊎ Real l
  List-cases no_list = inl refl
  List-cases (cell _ _ _) = inr tt

  add_node-no_list : (n : Node Score) (v : Score) → add_node d no_list n v ≡ none
  unfolding add_node
  add_node-no_list n v = refl

  Visited-skip :
      (first open_set tail : LList Score) (a c : ℕ) (n_g : Score) (n_b : Node Score) (s : Score)
      → Visited first (cell (node a c n_g n_b) s tail) open_set
      → 1 ≤ count open_set a c + count closed_set a c
      → Visited first tail open_set
  Visited-skip first open_set tail a c n_g n_b s h there = record {
    real = h.real;
    tidy = h.tidy;
    trails = h.trails;
    apart = h.apart;
    steps = λ i j. omega (arith, h.steps i j);
    grows = h.grows;
    complete = λ i j e. elim (Bool-cases (a == i && (c == j))) [
      | inl same ↦
          let on_x : a ≡ i = ground arith in
          let on_y : c ≡ j = ground arith in
          let here : 1 ≤ count open_set i j + count closed_set i j =
            rw (sym on_x, sym on_y) there in
          omega arith
      | inr other ↦
          let none_here : one (a == i && (c == j)) ≡ 0 = rw other refl in
          omega (arith, h.complete i j e)
    ];
  }

  -- A neighbor that is in neither set, or is reached by a shorter way.
  Visited-add_node :
      (first open_set tail : LList Score) (a c : ℕ) (n_g n_g' : Score) (n_b : Node Score)
      (s v : Score)
      → Trail map pose (node x y g b)
      → count closed_set a c ≡ 0
      → Visited first (cell (node a c n_g n_b) s tail) open_set
      → OnSome (Visited first tail) (
          add_node d
            (remove_node open_set (node a c n_g' (node x y g b)))
            (node a c n_g' (node x y g b))
            v)
  Visited-add_node first open_set tail a c n_g n_g' n_b s v trail outside h =
      elim (List-cases (remove_node open_set reached)) [
        | inl e ↦ rw (e, add_node-no_list reached v) tt
        | inr is_list ↦
            let removed = Tidy-remove_node open_set reached h.tidy in
            let added =
              add_node-Added d (Trail map pose) (remove_node open_set reached) a c n_g'
                (node x y g b) v is_list removed in
            let counted = λ (i j : ℕ).
              added.counts i j
              ∙ ap (λ n. n + one (stands reached i j))
                  (count-remove_node open_set a c n_g' (node x y g b) i j h.tidy) in
            rw added.computes (record {
              real = added.real;
              tidy = added.tidy;
              trails =
                  added.every (step_here, trail)
                    (All-remove_node (Trail map pose) open_set reached h.trails);
              apart = λ i j. elim (Bool-cases (stands reached i j)) [
                | inl same ↦
                    let outside_here = there i j same in
                    let once : one (stands reached i j) ≡ 1 = rw same refl in
                    omega (arith, h.apart i j, counted i j)
                | inr other ↦
                    let never : one (stands reached i j) ≡ 0 = rw other refl in
                    omega (arith, h.apart i j, counted i j)
              ];
              steps = λ i j. omega (arith, h.steps i j);
              grows = λ i j. omega (arith, h.grows i j, counted i j);
              complete = λ i j e. omega (arith, h.complete i j e, counted i j);
            })
      ]
    where
      reached : Node Score
      reached = node a c n_g' (node x y g b)

      step_here : may_step map x y a c ≡ true
      step_here = allowed (count tail a c) (may_step map x y a c) (h.steps a c)
        where
          allowed : (n : ℕ) (m : Bool) → one (a == a && (c == c)) + n ≤ one m → m ≡ true
          allowed n m le = ground arith

      there : (i j : ℕ) → stands reached i j ≡ true → count closed_set i j ≡ 0
      there i j e =
          let on_x : a ≡ i = ground arith in
          let on_y : c ≡ j = ground arith in rw (sym on_x, sym on_y) outside

  -- The node takes the neighbor's place if that is not found in the open set, or if it is better.
  Visited-choice :
      (first open_set tail : LList Score) (a c : ℕ) (n_g n_g' : Score) (n_b : Node Score)
      (s v : Score) (found better : Bool)
      → Trail map pose (node x y g b)
      → count closed_set a c ≡ 0
      → (found ≡ true → 1 ≤ count open_set a c)
      → Visited first (cell (node a c n_g n_b) s tail) open_set
      → OnSome (Visited first tail) (
          if not found || better
          then add_node d
              (remove_node open_set (node a c n_g' (node x y g b)))
              (node a c n_g' (node x y g b))
              v
          else some open_set)
  Visited-choice first open_set tail a c n_g n_g' n_b s v false better trail outside known h =
      Visited-add_node first open_set tail a c n_g n_g' n_b s v trail outside h
  Visited-choice first open_set tail a c n_g n_g' n_b s v true true trail outside known h =
      Visited-add_node first open_set tail a c n_g n_g' n_b s v trail outside h
  Visited-choice first open_set tail a c n_g n_g' n_b s v true false trail outside known h =
      let there = known refl in Visited-skip first open_set tail a c n_g n_b s h (omega arith)

  positive : (n : ℕ) (known : Bool) → (n ≡ 0 → known ≡ false) → known ≡ true → 1 ≤ n
  positive n known h e = ground arith

  Visited-visit_neighbor :
      (first tail : LList Score) (a c : ℕ) (n_g : Score) (n_b : Node Score) (s : Score)
      (st : Option (LList Score))
      → Trail map pose (node x y g b)
      → Tidy closed_set
      → OnSome (Visited first (cell (node a c n_g n_b) s tail)) st
      → OnSome
          (Visited first tail)
          (visit_neighbor d map pose goal closed_set x y g b (node a c n_g n_b) st)
  unfolding visit_neighbor reach_neighbor
  Visited-visit_neighbor first tail a c n_g n_b s none trail t h = tt
  Visited-visit_neighbor first tail a c n_g n_b s (some open_set) trail t h =
      let in_closed = is_node-find_node closed_set a c n_g n_b t in
      let in_open = is_node-find_node open_set a c n_g n_b h.tidy in
      elim (Bool-cases (is_node (find_node closed_set (node a c n_g n_b)))) [
        | inl e ↦ rw e (
            Visited-skip first open_set tail a c n_g n_b s h
              (let there = positive _ _ in_closed.1 e in omega arith))
        | inr e ↦ rw e (
            Visited-choice first open_set tail a c n_g _ n_b s _ _ _ trail (in_closed.0 e)
              (positive _ _ in_open.1) h)
      ]

  -- After the loop over the neighbors, no neighbor is left to visit.
  pub each_popped-Visited :
      (first neighbors : LList Score)
      → Trail map pose (node x y g b)
      → Tidy closed_set
      → Tidy neighbors
      → Visited first neighbors first
      → OnSome
          (Visited first no_list)
          (each_popped neighbors (visit_neighbor d map pose goal closed_set x y g b) (some first))
  each_popped-Visited first neighbors trail t t' h =
      each_popped_inv (λ left st. OnSome (Visited first left) st)
        (λ st. OnSome (Visited first no_list) st)
        (visit_neighbor d map pose goal closed_set x y g b)
        (λ a c n_g n_b s tail st k. Visited-visit_neighbor first tail a c n_g n_b s st trail t k)
        finish neighbors (some first) t' h
    where
      finish :
          (l : LList Score) (st : Option (LList Score))
          → ((a c : ℕ) → count l a c ≡ 0)
          → OnSome (Visited first l) st
          → OnSome (Visited first no_list) st
      finish l none nothing k = tt
      finish l (some open_set) nothing k = record {
        real = k.real;
        tidy = k.tidy;
        trails = k.trails;
        apart = k.apart;
        steps = λ a c. omega arith;
        grows = k.grows;
        complete = λ a c e. omega (arith, k.complete a c e, nothing a c);
      }
