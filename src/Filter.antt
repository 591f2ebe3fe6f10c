-- ===== src/Filter.antt =====
-- The builders of a tags filter (centrifuge/filter.py): `FilterNode` and `Filter`. A text is a number, as
-- in the client's model, but for the words of the keys `cmp` and `op`, and a node is its dict, with the keys
-- that are set.
pub mod Reading
mod Runs
use Prim.Native.String.{String}
use centrifuge_python.Base.{Option, none, some, List, [], ◌∷◌, if◌then◌else◌, ◌==◌}
use centrifuge_python.Events.{Text, empty_text}
use centrifuge_python.Client.Commands.{non_empty}

-- `FilterNode.node`: the keys `key`, `cmp`, `val` and `vals`, or `op` and `nodes`.
mutual
  pub data Node : Type 0 where
    comparison : Text → String → Option Text → Option (List Text) → Node
    combination : String → Nodes → Node

  pub data Nodes : Type 0 where
    no_nodes : Nodes
    node_then : Node → Nodes → Nodes

abbrev pub non_empty_list : List Text → Option (List Text)
non_empty_list [] = none
non_empty_list (val ∷ vals) = some (val ∷ vals)

-- `_leaf`
unfoldable pub leaf : Text → String → Text → List Text → Node
leaf key cmp val vals = comparison key cmp (non_empty val) (non_empty_list vals)

-- `_logical`
unfoldable pub logical : String → Nodes → Node
logical op nodes = combination op nodes

unfoldable pub eq : Text → Text → Node
unfolding leaf
eq key val = leaf key "eq" val []

unfoldable pub neq : Text → Text → Node
unfolding leaf
neq key val = leaf key "neq" val []

unfoldable pub starts_with : Text → Text → Node
unfolding leaf
starts_with key val = leaf key "sw" val []

unfoldable pub ends_with : Text → Text → Node
unfolding leaf
ends_with key val = leaf key "ew" val []

unfoldable pub contains : Text → Text → Node
unfolding leaf
contains key val = leaf key "ct" val []

unfoldable pub gt : Text → Text → Node
unfolding leaf
gt key val = leaf key "gt" val []

unfoldable pub gte : Text → Text → Node
unfolding leaf
gte key val = leaf key "gte" val []

unfoldable pub lt : Text → Text → Node
unfolding leaf
lt key val = leaf key "lt" val []

unfoldable pub lte : Text → Text → Node
unfolding leaf
lte key val = leaf key "lte" val []

unfoldable pub is_in : Text → List Text → Node
unfolding leaf
is_in key vals = leaf key "in" empty_text vals

unfoldable pub not_in : Text → List Text → Node
unfolding leaf
not_in key vals = leaf key "nin" empty_text vals

unfoldable pub exists : Text → Node
unfolding leaf
exists key = leaf key "ex" empty_text []

unfoldable pub not_exists : Text → Node
unfolding leaf
not_exists key = leaf key "nex" empty_text []

unfoldable pub all : Nodes → Node
unfolding logical
all nodes = logical "and" nodes

unfoldable pub any : Nodes → Node
unfolding logical
any nodes = logical "or" nodes

unfoldable pub negate : Node → Node
unfolding logical
negate node = logical "not" (node_then node no_nodes)
