-- ===== src/Plumber/Link.antt =====
-- A pipe between two components.
use s3res.Prelude.{
  ℕ, zero, suc, ◌+◌, ◌<◌, ltb, true, Option, some, List, [], ◌∷◌, set, length, length-set, get_or,
  get_or-set_self, get_or-set_ne, ◌≡◌, ◌≢◌, refl, sym, ap, ◌∙◌, subst, arith,
}
use s3res.Prelude.Int.{ℤ}
use s3res.CommTypes.{CommMessage, TypedPipe, no_typed_pipe}
use s3res.VoteBuff.RepType.{unreplicated}
use s3res.Plumber.{PlumbNode, pipe_limit, fresh_node, give_pipe, after, at_node, link_node}

-- what stands in for a node out of range
abbrev pub no_plumb_node : PlumbNode
no_plumb_node = fresh_node "" "" unreplicated "" "" ""

-- The node has one more pipe, behind those that it had.
pub record Gained (pipe : TypedPipe) (n n' : PlumbNode) : Type 0 where
  pub one_more : n'.pipe_count ≡ n.pipe_count + 1
  pub last : get_or n'.pipes n.pipe_count no_typed_pipe ≡ pipe
  pub earlier :
      (i : ℕ) → i < n.pipe_count → get_or n'.pipes i no_typed_pipe ≡ get_or n.pipes i no_typed_pipe
  pub same_name : n'.name ≡ n.name

-- A node with room for one more pipe.
abbrev pub HasRoom : PlumbNode → Type 0
HasRoom n = (n.pipe_count < pipe_limit) × (length n.pipes ≡ pipe_limit)

give_pipe-Gained :
    (type : CommMessage) (fd_in fd_out : ℕ) (timed : ℤ) (n : PlumbNode)
    → HasRoom n
    → (n' : PlumbNode) × (give_pipe type fd_in fd_out timed n ≡ some n')
      × Gained (record { type = type; fd_in = fd_in; fd_out = fd_out }) n n'
unfolding give_pipe
give_pipe-Gained type fd_in fd_out timed n room =
    let pipe : TypedPipe = record { type = type; fd_in = fd_in; fd_out = fd_out } in
    let has_room : ltb n.pipe_count pipe_limit ≡ true = ground arith in
    (
      record n {
        pipes = set n.pipes n.pipe_count pipe;
        timed = set n.timed n.pipe_count timed;
        pipe_count = n.pipe_count + 1;
      },
      rw has_room refl,
      record {
        one_more = refl;
        last = get_or-set_self n.pipes n.pipe_count pipe no_typed_pipe (omega arith);
        earlier = λ i before.
            let other : n.pipe_count ≢ i = λ e. omega arith in
            get_or-set_ne n.pipes pipe no_typed_pipe other;
        same_name = refl;
      },
    )

at_node-set :
    (i : ℕ) (f : PlumbNode → Option PlumbNode) (nodes : List PlumbNode) (n' : PlumbNode)
    → i < length nodes
    → f (get_or nodes i no_plumb_node) ≡ some n'
    → at_node i f nodes ≡ some (set nodes i n')
unfolding at_node
at_node-set i f [] n' h e = absurd (omega arith)
at_node-set zero f (n ∷ nodes) n' h e = ap (λ o. after o (λ m. some (m ∷ nodes))) e
at_node-set (suc i) f (n ∷ nodes) n' h e =
    ap (λ o. after o (λ ns. some (n ∷ ns))) (at_node-set i f nodes n' (omega arith) e)

-- A pipe between two components of the list, which have room for it: the first gets its end to write, the
-- second its end to read, with the same type and behind the pipes that they have; no other component is
-- changed.
pub link_node-Gained :
    (read_end write_end : ℕ) (type : CommMessage) (from : ℕ) (from_timed : ℤ) (to : ℕ)
    (to_timed : ℤ) (nodes : List PlumbNode)
    → from ≢ to
    → from < length nodes
    → to < length nodes
    → HasRoom (get_or nodes from no_plumb_node)
    → HasRoom (get_or nodes to no_plumb_node)
    → (nodes' : List PlumbNode) × (link_node
          (some (read_end, write_end))
          type
          from
          from_timed
          to
          to_timed
          nodes
        ≡ some nodes')
      × Gained
          (record { type = type; fd_in = 0; fd_out = write_end })
          (get_or nodes from no_plumb_node)
          (get_or nodes' from no_plumb_node)
      × Gained
          (record { type = type; fd_in = read_end; fd_out = 0 })
          (get_or nodes to no_plumb_node)
          (get_or nodes' to no_plumb_node)
      × ((i : ℕ) → from ≢ i → to ≢ i → get_or nodes' i no_plumb_node ≡ get_or nodes i no_plumb_node)
unfolding link_node
link_node-Gained read_end write_end type from from_timed to to_timed nodes apart from_in to_in
      from_room to_room =
    let d = no_plumb_node in
    let (f, f_computes, f_gained) =
      give_pipe-Gained type 0 write_end from_timed (get_or nodes from d) from_room in
    let (t, t_computes, t_gained) =
      give_pipe-Gained type read_end 0 to_timed (get_or nodes to d) to_room in
    let first = set nodes from f in
    let untouched : get_or first to d ≡ get_or nodes to d = get_or-set_ne nodes f d apart in
    let from_at : get_or (set first to t) from d ≡ f =
      get_or-set_ne first t d (λ e. apart (sym e)) ∙ get_or-set_self nodes from f d from_in in
    let to_at : get_or (set first to t) to d ≡ t =
      get_or-set_self first to t d (omega (arith, length-set nodes from f)) in
    (
      set first to t,
      ap (λ o. after o (at_node to (give_pipe type read_end 0 to_timed)))
            (at_node-set from (give_pipe type 0 write_end from_timed) nodes f from_in f_computes)
          ∙ (at_node-set to (give_pipe type read_end 0 to_timed) first t
              (omega (arith, length-set nodes from f))
              (ap (give_pipe type read_end 0 to_timed) untouched ∙ t_computes)),
      subst (Gained _ (get_or nodes from d)) (sym from_at) f_gained,
      subst (Gained _ (get_or nodes to d)) (sym to_at) t_gained,
      (λ i not_from not_to. get_or-set_ne first t d not_to ∙ get_or-set_ne nodes f d not_from),
    )
