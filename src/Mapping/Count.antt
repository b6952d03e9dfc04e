-- ===== src/Mapping/Count.antt =====
-- How often a list of mapping.c holds a place, after each of its operations.
use s3res.Prelude.{
  ℕ, ◌+◌, ◌-◌, ◌==◌, ◌&&◌, ◌↔◌, Bool, false, some, ◌≡◌, refl, arith, one, Bool-cases, inl, inr,
}
use s3res.Mapping.{
  Doubles, Node, no_node, node, LList, no_list, cell, is_node, node_equals, find_node, remove_node,
  new_list, add_node, or_new, each_popped,
}

module _ {Score : Type 0} where
  -- the node stands at the place
  abbrev pub stands : Node Score → ℕ → ℕ → Bool
  stands no_node x y = false
  stands (node a b _ _) x y = (a == x) && (b == y)

  abbrev pub count : LList Score → ℕ → ℕ → ℕ
  count no_list x y = 0
  count (cell h _ tail) x y = one (stands h x y) + count tail x y

  -- No cell without a node has a tail.
  abbrev pub Tidy : LList Score → Type 0
  Tidy no_list = Unit
  Tidy (cell no_node _ no_list) = Unit
  Tidy (cell no_node _ (cell _ _ _)) = ⊥
  Tidy (cell (node _ _ _ _) _ tail) = Tidy tail

  -- The list is not NULL.
  abbrev pub Real : LList Score → Type 0
  Real no_list = ⊥
  Real (cell _ _ _) = Unit

  -- Each node of the list has the property.
  abbrev pub All : (Node Score → Type 0) → LList Score → Type 0
  All P no_list = Unit
  All P (cell no_node _ tail) = All P tail
  All P (cell (node x y g b) _ tail) = P (node x y g b) × All P tail

  -- `find_node` tells whether the list holds the place of a node.
  pub is_node-find_node :
      (l : LList Score) (x y : ℕ) (g : Score) (b : Node Score)
      → Tidy l
      → (is_node (find_node l (node x y g b)) ≡ false) ↔ (count l x y ≡ 0)
  unfolding find_node node_equals
  is_node-find_node no_list x y g b t = ground arith
  is_node-find_node (cell no_node s no_list) x y g b t = ground arith
  is_node-find_node (cell no_node s (cell _ _ _)) x y g b t = elim t [ ]
  is_node-find_node (cell (node a c g' b') s tail) x y g b t =
      ground (arith, is_node-find_node tail x y g b t)

  pub Tidy-remove_node : (l : LList Score) (n : Node Score) → Tidy l → Tidy (remove_node l n)
  unfolding remove_node
  Tidy-remove_node no_list n t = t
  Tidy-remove_node (cell no_node s tail) n t = t
  Tidy-remove_node (cell (node x y g b) s tail) n t =
      elim (Bool-cases (node_equals (node x y g b) n)) [
        | inl e ↦ rw e t
        | inr e ↦ rw e (Tidy-remove_node tail n t)
      ]

  pub All-remove_node :
      (P : Node Score → Type 0) (l : LList Score) (n : Node Score)
      → All P l
      → All P (remove_node l n)
  unfolding remove_node
  All-remove_node P no_list n t = t
  All-remove_node P (cell no_node s tail) n t = t
  All-remove_node P (cell (node x y g b) s tail) n t =
      elim (Bool-cases (node_equals (node x y g b) n)) [
        | inl e ↦ rw e t.1
        | inr e ↦ rw e (t.0, All-remove_node P tail n t.1)
      ]

  -- One occurrence of the node's place is removed, if there is one.
  pub count-remove_node :
      (l : LList Score) (a c : ℕ) (g : Score) (b : Node Score) (x y : ℕ)
      → Tidy l
      → count (remove_node l (node a c g b)) x y ≡ count l x y - one (stands (node a c g b) x y)
  unfolding remove_node node_equals
  count-remove_node no_list a c g b x y t = ground arith
  count-remove_node (cell no_node s no_list) a c g b x y t = ground arith
  count-remove_node (cell no_node s (cell _ _ _)) a c g b x y t = elim t [ ]
  count-remove_node (cell (node a' c' g' b') s tail) a c g b x y t =
      ground (arith, count-remove_node tail a c g b x y t)

module _ {Score : Type 0} (d : Doubles Score) (P : Node Score → Type 0) where
  -- `addNode` of a node to a list that is not NULL.
  pub record Added (l : LList Score) (n : Node Score) (v : Score) : Type 0 where
    pub result : LList Score
    pub computes : add_node d l n v ≡ some result
    pub real : Real result
    pub tidy : Tidy result
    pub counts : (x y : ℕ) → count result x y ≡ count l x y + one (stands n x y)
    pub every : P n → All P l → All P result

  pub add_node-adds :
      (h : Node Score) (s : Score) (tail : LList Score) (a c : ℕ) (g : Score) (b : Node Score)
      (v : Score)
      → Tidy (cell h s tail)
      → Added (cell h s tail) (node a c g b) v
  unfolding add_node
  add_node-adds no_node s no_list a c g b v t = record {
    result = cell (node a c g b) v no_list;
    computes = refl;
    real = tt;
    tidy = tt;
    counts = λ x y. omega arith;
    every = λ p q. (p, tt);
  }
  add_node-adds no_node s (cell _ _ _) a c g b v t = elim t [ ]
  add_node-adds (node x y g' b') s no_list a c g b v t = elim (Bool-cases (d.lt v s)) [
    | inl e ↦ record {
      result = cell (node a c g b) v (cell (node x y g' b') s no_list);
      computes = rw e refl;
      real = tt;
      tidy = tt;
      counts = λ x y. omega arith;
      every = λ p q. (p, q);
    }
    | inr e ↦ record {
      result = cell (node x y g' b') s (cell (node a c g b) v no_list);
      computes = rw e refl;
      real = tt;
      tidy = tt;
      counts = λ x y. omega arith;
      every = λ p q. (q.0, (p, tt));
    }
  ]
  add_node-adds (node x y g' b') s (cell h s' tail) a c g b v t = elim (Bool-cases (d.lt v s)) [
    | inl e ↦ record {
      result = cell (node a c g b) v (cell (node x y g' b') s (cell h s' tail));
      computes = rw e refl;
      real = tt;
      tidy = t;
      counts = λ x y. omega arith;
      every = λ p q. (p, q);
    }
    | inr e ↦
        let rest = add_node-adds h s' tail a c g b v t in
        record {
          result = cell (node x y g' b') s rest.result;
          computes = rw (e, rest.computes) refl;
          real = tt;
          tidy = rest.tidy;
          counts = λ x y. omega (arith, rest.counts x y);
          every = λ p q. (q.0, rest.every p q.1);
        }
  ]

  pub add_node-Added :
      (l : LList Score) (a c : ℕ) (g : Score) (b : Node Score) (v : Score)
      → Real l
      → Tidy l
      → Added l (node a c g b) v
  add_node-Added no_list a c g b v r t = absurd r
  add_node-Added (cell h s tail) a c g b v r t = add_node-adds h s tail a c g b v t

-- What `pop` leaves is a list, with what stood behind the first cell.
module _ {Score : Type 0} (d : Doubles Score) where
  pub count-or_new : (l : LList Score) (x y : ℕ) → count (or_new d l) x y ≡ count l x y
  unfolding new_list
  count-or_new no_list x y = refl
  count-or_new (cell h s tail) x y = refl

  pub Tidy-or_new : (l : LList Score) → Tidy l → Tidy (or_new d l)
  unfolding new_list
  Tidy-or_new no_list t = tt
  Tidy-or_new (cell h s tail) t = t

  pub Real-or_new : (l : LList Score) → Real (or_new d l)
  unfolding new_list
  Real-or_new no_list = tt
  Real-or_new (cell h s tail) = tt

  pub All-or_new : (P : Node Score → Type 0) (l : LList Score) → All P l → All P (or_new d l)
  unfolding new_list
  All-or_new P no_list h = tt
  All-or_new P (cell h s tail) k = k

-- What each node keeps as it is popped and its place is dealt with, holds when the list is empty.
pub each_popped_inv :
    {Score : Type 0} {State : Type 0} (Inv : LList Score → State → Type 0) (Q : State → Type 0)
    (body : Node Score → State → State)
    → ((x y : ℕ) (g : Score) (b : Node Score) (s : Score) (tail : LList Score) (u : State)
        → Inv (cell (node x y g b) s tail) u
        → Inv tail (body (node x y g b) u))
    → ((l : LList Score) (u : State) → ((x y : ℕ) → count l x y ≡ 0) → Inv l u → Q u)
    → (l : LList Score) (u : State) → Tidy l
    → Inv l u
    → Q (each_popped l body u)
unfolding each_popped
each_popped_inv Inv Q body step finish no_list u t h = finish no_list u (λ x y. refl) h
each_popped_inv Inv Q body step finish (cell no_node s no_list) u t h =
    finish (cell no_node s no_list) u (λ x y. refl) h
each_popped_inv Inv Q body step finish (cell no_node s (cell _ _ _)) u t h = elim t [ ]
each_popped_inv Inv Q body step finish (cell (node x y g b) s tail) u t h =
    each_popped_inv Inv Q body step finish tail (body (node x y g b) u) t (step x y g b s tail u h)
