-- ===== src/Plumber.antt =====
-- plumber/plumbing.c and plumber/plumbing.h: the components of the system, and the pipes between them.
use Prim.Native.String.{String}
use text.Mathlib.Text.{◌==◌ as str_eq}
use s3res.Prelude.{
  ℕ, zero, suc, ◌+◌, ltb, Bool, true, false, Option, none, some, List, [], ◌∷◌, set, replicate,
  if◌then◌else◌,
}
use s3res.Prelude.Int.{ℤ, pos}
use s3res.CommTypes.{CommMessage, TypedPipe, no_typed_pipe}
use s3res.VoteBuff.RepType.{Replication, unreplicated, smr, dmr, tmr, rep_type_error}
pub mod Nodes
pub mod Link
mod Tests

-- PIPE_LIMIT
abbrev pub pipe_limit : ℕ
pipe_limit = 10

-- `struct node`; its two arrays have `pipe_limit` places each.
pub record PlumbNode : Type 0 where
  pub name : String
  pub value : String
  pub priority : String
  pub rep_strat : Replication
  pub voter_name : Option String
  pub voter_timer : Option String
  pub pipe_count : ℕ
  pub timed : List ℤ
  pub pipes : List TypedPipe

-- The text of a voter, which a component without replication has not.
abbrev pub voter_text : Replication → String → Option String
voter_text unreplicated text = none
voter_text smr text = some text
voter_text dmr text = some text
voter_text tmr text = some text
voter_text rep_type_error text = some text

-- A node without pipes. What malloc() leaves in its arrays is never read: the code reads them below
-- `pipe_count`.
unfoldable pub fresh_node :
    (name value : String) → Replication → (voter_name voter_timer priority : String) → PlumbNode
fresh_node name value rep_type voter_name voter_timer priority = record {
  name = name;
  value = value;
  priority = priority;
  rep_strat = rep_type;
  voter_name = voter_text rep_type voter_name;
  voter_timer = voter_text rep_type voter_timer;
  pipe_count = 0;
  timed = replicate pipe_limit (pos 0);
  pipes = replicate pipe_limit no_typed_pipe;
}

-- The `current` of the last `struct nodelist`: NULL, or what malloc() has left there, since nothing sets
-- it.
pub data Current : Type 0 where
  null wild : Current

abbrev pub behind :
    PlumbNode → Option (Bool × List PlumbNode × Current) → Option (Bool × List PlumbNode × Current)
behind n none = none
behind n (some (added, nodes, at_end)) = some (added, n ∷ nodes, at_end)

-- Whether `add_node` adds the node, the nodes, and the `current` at the end of the list; `none` where it
-- follows a wild pointer. `allocated` is what the memory of the new end holds.
unfoldable pub add_node :
    (allocated at_end : Current)
    → List PlumbNode
    → PlumbNode
    → Option (Bool × List PlumbNode × Current)
add_node allocated null [] new = some (true, new ∷ [], allocated)
add_node allocated wild [] new = none
add_node allocated at_end (n ∷ nodes) new =
    let rest = add_node allocated at_end nodes new in
    if str_eq new.name n.name then some (false, n ∷ nodes, at_end) else behind n rest

abbrev pub one_further : Option (Option ℕ) → Option (Option ℕ)
one_further none = none
one_further (some none) = some none
one_further (some (some i)) = some (some (suc i))

-- The place of the node in the list, or `some none` for NULL; `none` where it follows a wild pointer.
unfoldable pub get_node : Current → List PlumbNode → String → Option (Option ℕ)
get_node null [] name = some none
get_node wild [] name = none
get_node at_end (n ∷ nodes) name =
    let rest = get_node at_end nodes name in
    if str_eq name n.name then some (some 0) else one_further rest

-- One more pipe of a node; `none` behind the end of the arrays.
unfoldable pub give_pipe : CommMessage → ℕ → ℕ → ℤ → PlumbNode → Option PlumbNode
give_pipe type fd_in fd_out timed n =
    if ltb n.pipe_count pipe_limit
    then some (record n {
      pipes = set n.pipes n.pipe_count (record { type = type; fd_in = fd_in; fd_out = fd_out });
      timed = set n.timed n.pipe_count timed;
      pipe_count = n.pipe_count + 1;
    })
    else none

-- The flag is a bool here, and an int in `link_node`.
unfoldable pub link_bench : CommMessage → ℕ → ℕ → Bool → PlumbNode → Option PlumbNode
link_bench type fd_in fd_out timed = give_pipe type fd_in fd_out (if timed then pos 1 else pos 0)

-- what follows, if there is a result
abbrev pub after : {A B : Type 0} → Option A → (A → Option B) → Option B
after none next = none
after (some a) next = next a

-- What a pointer to a node of the list lets an operation do.
unfoldable pub at_node :
    ℕ → (PlumbNode → Option PlumbNode) → List PlumbNode → Option (List PlumbNode)
at_node i f [] = none
at_node zero f (n ∷ nodes) = after (f n) (λ n'. some (n' ∷ nodes))
at_node (suc i) f (n ∷ nodes) = let rest = at_node i f nodes in after rest (λ ns. some (n ∷ ns))

-- `pipe()` answers with the two ends, the one to read and the one to write, or it fails. Both nodes may
-- be the same.
unfoldable pub link_node :
    Option (ℕ × ℕ) → CommMessage → ℕ → ℤ → ℕ → ℤ → List PlumbNode → Option (List PlumbNode)
link_node none type from from_timed to to_timed nodes = some nodes
link_node (some (read_end, write_end)) type from from_timed to to_timed nodes =
    after (at_node from (give_pipe type 0 write_end from_timed) nodes)
      (at_node to (give_pipe type read_end 0 to_timed))
