-- ===== src/Filter/Runs.antt =====
-- A filter of the documentation (centrifuge/filter.py), and the theorems at it.
use centrifuge_python.Filter.Reading.{
  no_rules, equal, build, Rule, read_node-build, read_node, every, rule_then, compares, inverse,
  among,
}
use centrifuge_python.Base.{◌≡◌, some, [], ◌∷◌}

-- (ticker == "AAPL") AND NOT (source in ["NASDAQ", "NYSE"])
abbrev documented : Rule
documented =
    every (rule_then (compares equal 1 2) (rule_then (inverse (among 3 (4 ∷ 5 ∷ []))) no_rules))

read_node-build_example : read_node (build documented) ≡ some documented
read_node-build_example = read_node-build documented
