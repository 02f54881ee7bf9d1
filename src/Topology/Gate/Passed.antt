-- ===== src/Topology/Gate/Passed.antt =====
-- What the exit code 0 of the topology preflight means.
use llm_d_sc_benchmark.Prelude.{ℕ, ◌≡◌, ◌≢◌, true, false, List, [], ◌∷◌, if◌then◌else◌, elem, All}
use text.Mathlib.Text.{◌==◌ as str_eq}
use llm_d_sc_benchmark.Prelude.Floats.{Floats}
use llm_d_sc_benchmark.Topology.Gate.CpuSets.{is_empty}
use llm_d_sc_benchmark.Topology.Gate.Pods.{Placed}
use llm_d_sc_benchmark.Topology.Gate.Verdict.{no_pods}
use llm_d_sc_benchmark.Topology.Gate.Read.{cons-ne-nil}

-- No CPU belongs to two pods of one node.
abbrev pub AreApart : Placed → Placed → Type 0
AreApart left right =
    str_eq left.placement.node_name right.placement.node_name ≡ true
    → (cpu : ℕ) → elem cpu left.placement.cpuset ≡ true
    → elem cpu right.placement.cpuset ≡ false

abbrev pub AllApart : List Placed → Type 0
AllApart [] = Unit
AllApart (p ∷ rest) = All (AreApart p) rest × AllApart rest

filled :
    {A : Type 0} (items : List A) → (if is_empty items then no_pods ∷ [] else []) ≡ [] → items ≢ []
unfolding is_empty
filled [] h = cc
filled (a ∷ items) h = cons-ne-nil
