-- ===== src/Filter/Reading.antt =====
-- What a node of a tags filter says (centrifuge/filter.py), as the documentation of the builders names it,
-- read from the keys of its dict.
use centrifuge_python.Client.Commands.{non_empty}
use centrifuge_python.Filter.{
  negate, ends_with, any, starts_with, contains, non_empty_list, all, Node, eq, leaf, gte, neq,
  is_in, lte, not_in, gt, exists, logical, not_exists, lt, Nodes, no_nodes, comparison, node_then,
  combination,
}
use centrifuge_python.Base.{if◌then◌else◌, ◌≡◌, refl, Option, none, some, List, [], ◌∷◌, arith, ap}
use Prim.Native.String.{String}
use text.Mathlib.Text.{◌==◌}
use centrifuge_python.Events.{Text, empty_text}

-- A comparison of a tag with a value.
pub data Test : Type 0 where
  equal unequal prefix suffix infix_of above at_least below at_most : Test

-- A filter.
mutual
  pub data Rule : Type 0 where
    compares : Test → Text → Text → Rule
    among not_among : Text → List Text → Rule
    present absent : Text → Rule
    every some_of : Rules → Rule
    inverse : Rule → Rule

  pub data Rules : Type 0 where
    no_rules : Rules
    rule_then : Rule → Rules → Rules

-- The builder of each test.
abbrev pub build_test : Test → Text → Text → Node
build_test equal key val = eq key val
build_test unequal key val = neq key val
build_test prefix key val = starts_with key val
build_test suffix key val = ends_with key val
build_test infix_of key val = contains key val
build_test above key val = gt key val
build_test at_least key val = gte key val
build_test below key val = lt key val
build_test at_most key val = lte key val

-- A filter written with the builders.
mutual
  pub build : Rule → Node
  build (compares test key val) = build_test test key val
  build (among key vals) = is_in key vals
  build (not_among key vals) = not_in key vals
  build (present key) = exists key
  build (absent key) = not_exists key
  build (every rules) = all (build_all rules)
  build (some_of rules) = any (build_all rules)
  build (inverse rule) = negate (build rule)

  pub build_all : Rules → Nodes
  build_all no_rules = no_nodes
  build_all (rule_then rule rules) = node_then (build rule) (build_all rules)

-- A key that is not set stands for the empty text or list.
abbrev val_of : Option Text → Text
val_of none = empty_text
val_of (some val) = val

abbrev vals_of : Option (List Text) → List Text
vals_of none = []
vals_of (some vals) = vals

-- The words of the comparisons with one value.
abbrev test_of : String → Option Test
test_of word =
    if word == "eq"
    then some equal
    else if word == "neq"
    then some unequal
    else if word == "sw"
    then some prefix
    else if word == "ew"
    then some suffix
    else if word == "ct"
    then some infix_of
    else if word == "gt"
    then some above
    else if word == "gte"
    then some at_least
    else if word == "lt"
    then some below
    else if word == "lte"
    then some at_most
    else none

-- The words of the comparisons with a list of values and with none.
abbrev read_other : String → Text → List Text → Option Rule
read_other word key vals =
    if word == "in"
    then some (among key vals)
    else if word == "nin"
    then some (not_among key vals)
    else if word == "ex"
    then some (present key)
    else if word == "nex"
    then some (absent key)
    else none

abbrev read_comparison : String → Text → Text → List Text → Option Rule
read_comparison word key val vals = elim (test_of word) [
  | some test ↦ some (compares test key val)
  | none ↦ read_other word key vals
]

abbrev read_inverse : Rules → Option Rule
read_inverse no_rules = none
read_inverse (rule_then rule no_rules) = some (inverse rule)
read_inverse (rule_then rule (rule_then rule' rules)) = none

abbrev read_combination : String → Option Rules → Option Rule
read_combination word none = none
read_combination word (some rules) =
    if word == "and"
    then some (every rules)
    else if word == "or"
    then some (some_of rules)
    else if word == "not"
    then read_inverse rules
    else none

abbrev cons_read : Option Rule → Option Rules → Option Rules
cons_read none rules = none
cons_read (some rule) none = none
cons_read (some rule) (some rules) = some (rule_then rule rules)

mutual
  pub read_node : Node → Option Rule
  read_node (comparison key cmp val vals) = read_comparison cmp key (val_of val) (vals_of vals)
  read_node (combination op nodes) = read_combination op (read_nodes nodes)

  pub read_nodes : Nodes → Option Rules
  read_nodes no_nodes = some no_rules
  read_nodes (node_then node nodes) = cons_read (read_node node) (read_nodes nodes)

val_of-non_empty : (val : Text) → val_of (non_empty val) ≡ val
val_of-non_empty val = ground arith

vals_of-non_empty_list : (vals : List Text) → vals_of (non_empty_list vals) ≡ vals
vals_of-non_empty_list [] = refl
vals_of-non_empty_list (val ∷ vals) = refl

read-build_test :
    (test : Test) (key val : Text)
    → read_node (build_test test key val) ≡ some (compares test key val)
unfolding read_node leaf eq neq starts_with ends_with contains gt gte lt lte
read-build_test equal key val = ap (λ v. some (compares equal key v)) (val_of-non_empty val)
read-build_test unequal key val = ap (λ v. some (compares unequal key v)) (val_of-non_empty val)
read-build_test prefix key val = ap (λ v. some (compares prefix key v)) (val_of-non_empty val)
read-build_test suffix key val = ap (λ v. some (compares suffix key v)) (val_of-non_empty val)
read-build_test infix_of key val = ap (λ v. some (compares infix_of key v)) (val_of-non_empty val)
read-build_test above key val = ap (λ v. some (compares above key v)) (val_of-non_empty val)
read-build_test at_least key val = ap (λ v. some (compares at_least key v)) (val_of-non_empty val)
read-build_test below key val = ap (λ v. some (compares below key v)) (val_of-non_empty val)
read-build_test at_most key val = ap (λ v. some (compares at_most key v)) (val_of-non_empty val)

mutual
  unfolding read_node read_nodes build build_all is_in not_in exists not_exists all any negate leaf
      logical

  build_reads : (rule : Rule) → read_node (build rule) ≡ some rule
  build_reads (compares test key val) = read-build_test test key val
  build_reads (among key vals) = ap (λ l. some (among key l)) (vals_of-non_empty_list vals)
  build_reads (not_among key vals) = ap (λ l. some (not_among key l)) (vals_of-non_empty_list vals)
  build_reads (present key) = refl
  build_reads (absent key) = refl
  build_reads (every rules) = ap (read_combination "and") (build_all_reads rules)
  build_reads (some_of rules) = ap (read_combination "or") (build_all_reads rules)
  build_reads (inverse rule) =
      ap (λ r. read_combination "not" (cons_read r (some no_rules))) (build_reads rule)

  build_all_reads : (rules : Rules) → read_nodes (build_all rules) ≡ some rules
  build_all_reads no_rules = refl
  build_all_reads (rule_then rule rules) =
      λ i. cons_read (build_reads rule i) (build_all_reads rules i)

-- A filter that is written with the builders, nested in any way, reads back as what it was written for.
pub read_node-build : (rule : Rule) → read_node (build rule) ≡ some rule
read_node-build rule = build_reads rule
