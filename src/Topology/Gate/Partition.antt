-- ===== src/Topology/Gate/Partition.antt =====
-- The sibling map of an accepted node: the partition of its online CPUs that the groups describe.
use llm_d_sc_benchmark.Prelude.{
  ℕ, ◌≡◌, refl, sym, ap, ◌∙◌, true, Option, none, some, List, [], ◌∷◌, arith, ok, ◌==◌, ==_iff,
  elem, All, >>=-eq-ok, ok-injective, require, require_ok, Bool-cases, inl, inr,
}
use mathlib.Core.Path.{subst}
use llm_d_sc_benchmark.Prelude.Json.{Json}
use llm_d_sc_benchmark.Prelude.Floats.{Floats}
use llm_d_sc_benchmark.Prelude.Decimal.{text_eq_sound}
use llm_d_sc_benchmark.Topology.Gate.CpuSets.{is_subset, is_empty}
use llm_d_sc_benchmark.Topology.Gate.Nodes.{
  reserved_offline, inconsistent_groups, offline_group, Node, Checked, group_of, agrees, add_cpus,
  add_groups, without_keys, index, cpus_of, parse_groups, group_list, check_node,
}
use llm_d_sc_benchmark.Topology.Gate.Isolation.{all-elem, some-injective}
use llm_d_sc_benchmark.Topology.Gate.Total.{group_of-known, without_keys-cons}

pub record IsPartitioned (node : Node) : Type 0 where
  pub housekeeping : (cpu : ℕ) → elem cpu node.reserved ≡ true → elem cpu node.online ≡ true
  pub covered :
      (cpu : ℕ)
      → elem cpu node.online ≡ true
      → (group : List ℕ) × (group_of node.cpu_to_group cpu ≡ some group) × (elem cpu group ≡ true)
  pub own :
      All
        (λ group. (cpu : ℕ) → elem cpu group ≡ true → group_of node.cpu_to_group cpu ≡ some group)
        node.groups
  pub inside :
      All (λ group. (cpu : ℕ) → elem cpu group ≡ true → elem cpu node.online ≡ true) node.groups

abbrev Known : Type 0
Known = List (ℕ × List ℕ)

-- Nothing that the map says is lost.
Keeps : Known → Known → Type 0
Keeps known known' =
    (cpu : ℕ) (group : List ℕ) → group_of known cpu ≡ some group → group_of known' cpu ≡ some group

-- Each CPU is in its group.
Reflexive : Known → Type 0
Reflexive known =
    (cpu : ℕ) (group : List ℕ) → group_of known cpu ≡ some group → elem cpu group ≡ true

agrees_sound :
    (found : Option (List ℕ)) (group g : List ℕ)
    → agrees found group ≡ true
    → found ≡ some g
    → g ≡ group
unfolding agrees
agrees_sound none group g h e = cc
agrees_sound (some previous) group g h e = sym (some-injective e) ∙ text_eq_sound previous group h

cons-Keeps :
    (known : Known) (cpu : ℕ) (group : List ℕ)
    → agrees (group_of known cpu) group ≡ true
    → Keeps known ((cpu, group) ∷ known)
unfolding Keeps group_of
cons-Keeps known cpu group h x g found = elim (Bool-cases (x == cpu)) [
  | inl same ↦
      let same' = (==_iff x cpu).0 same in
      let found' = ap (group_of known) (sym same') ∙ found in
      rw (same, group_of) (ap some (sym (agrees_sound (group_of known cpu) group g h found')))
  | inr differ ↦ rw (differ, group_of) found
]

cons-Reflexive :
    (known : Known) (cpu : ℕ) (group : List ℕ)
    → elem cpu group ≡ true
    → Reflexive known
    → Reflexive ((cpu, group) ∷ known)
unfolding Reflexive group_of
cons-Reflexive known cpu group h r x g found = elim (Bool-cases (x == cpu)) [
  | inl same ↦
      let same' = (==_iff x cpu).0 same in
      let same_group = some-injective (rw (same, group_of) at found) in rw (same', ← same_group) h
  | inr differ ↦ r x g (rw (differ, group_of) at found)
]

group_of-first :
    (known : Known) (group : List ℕ) (x cpu : ℕ)
    → (x == cpu) ≡ true
    → group_of ((cpu, group) ∷ known) x ≡ some group
unfolding group_of
group_of-first known group x cpu h = rw h refl

add_cpus_lem :
    (group cpus : List ℕ) (known known' : Known)
    → ((cpu : ℕ) → elem cpu cpus ≡ true → elem cpu group ≡ true)
    → Reflexive known
    → add_cpus group cpus known ≡ ok known'
    → Keeps known known'
      × Reflexive known'
      × ((cpu : ℕ) → elem cpu cpus ≡ true → group_of known' cpu ≡ some group)
unfolding add_cpus Keeps
add_cpus_lem group [] known known' inside r h =
    let same = ok-injective h in
    (
      λ cpu g found. ap (λ k. group_of k cpu) (sym same) ∙ found,
      subst Reflexive same r,
      λ cpu e. cc,
    )
add_cpus_lem group (cpu ∷ cpus) known known' inside r h =
    let (u, h0, h1) =
      >>=-eq-ok (require (agrees (group_of known cpu) group) (inconsistent_groups cpu)) _ h in
    let agree = require_ok (agrees (group_of known cpu) group) (inconsistent_groups cpu) h0 in
    let (keeps, reflexive, mapped) =
      add_cpus_lem group cpus ((cpu, group) ∷ known) known' (λ x e. inside x (ground arith))
        (cons-Reflexive known cpu group (inside cpu (ground arith)) r) h1 in
    (
      λ x g found. keeps x g (cons-Keeps known cpu group agree x g found),
      reflexive,
      λ x e. elim (Bool-cases (x == cpu)) [
        | inl same ↦ keeps x group (group_of-first known group x cpu same)
        | inr differ ↦ mapped x (ground arith)
      ],
    )

add_groups_lem :
    (online : List ℕ) (groups : List (List ℕ)) (known known' : Known)
    → Reflexive known
    → add_groups online groups known ≡ ok known'
    → Keeps known known'
      × Reflexive known'
      × All (λ g. (cpu : ℕ) → elem cpu g ≡ true → group_of known' cpu ≡ some g) groups
      × All (λ g. (cpu : ℕ) → elem cpu g ≡ true → elem cpu online ≡ true) groups
unfolding add_groups Keeps is_subset
add_groups_lem online [] known known' r h =
    let same = ok-injective h in
    (λ cpu g found. ap (λ k. group_of k cpu) (sym same) ∙ found, subst Reflexive same r, tt, tt)
add_groups_lem online (group ∷ groups) known known' r h =
    let (u, h0, h1) = >>=-eq-ok (require (is_subset group online) (offline_group group)) _ h in
    let inside = require_ok (is_subset group online) (offline_group group) h0 in
    let (known1, h2, h3) = >>=-eq-ok (add_cpus group group known) _ h1 in
    let (keeps, reflexive, mapped) = add_cpus_lem group group known known1 (λ x e. e) r h2 in
    let (keeps', reflexive', own, insides) =
      add_groups_lem online groups known1 known' reflexive h3 in
    (
      λ cpu g found. keeps' cpu g (keeps cpu g found),
      reflexive',
      ((λ cpu e. keeps' cpu group (mapped cpu e)), own),
      ((λ cpu e. all-elem (λ a. elem a online) group cpu inside e), insides),
    )

-- No key is missing: each CPU has its group.
without_keys-nil :
    (cpus : List ℕ) (known : Known) (cpu : ℕ)
    → is_empty (without_keys cpus known) ≡ true
    → elem cpu cpus ≡ true
    → (group : List ℕ) × (group_of known cpu ≡ some group)
without_keys-nil [] known cpu h e = cc
without_keys-nil (c ∷ cpus) known cpu h e =
    let (here, later) = without_keys-cons c cpus known h in
    elim (Bool-cases (cpu == c)) [
      | inl same ↦
          let (group, found) = group_of-known known c here in
          (group, ap (group_of known) ((==_iff cpu c).0 same) ∙ found)
      | inr differ ↦ without_keys-nil cpus known cpu later (ground arith)
    ]

nil-Reflexive : Reflexive []
unfolding Reflexive group_of
nil-Reflexive cpu group h = cc

-- In an accepted node the housekeeping CPUs are online, each online CPU has a group and lies in it, each
-- group is the one of all its CPUs, so that two groups with a common CPU are one, and no group has an
-- offline CPU.
pub check_node-IsPartitioned :
    {F : Type 0} ⦃fl : Floats F⦄ (raw : Json F) (c : Checked)
    → check_node raw ≡ ok c
    → IsPartitioned c.node
unfolding check_node is_subset Reflexive
check_node-IsPartitioned raw c h =
    let (v0, h0, h1) = >>=-eq-ok (index raw "online_cpus") _ h in
    let (online, h2, h3) = >>=-eq-ok (cpus_of v0) _ h1 in
    let (v1, h4, h5) = >>=-eq-ok (index raw "reserved_cpus") _ h3 in
    let (reserved, h6, h7) = >>=-eq-ok (cpus_of v1) _ h5 in
    let (u0, h8, h9) = >>=-eq-ok (require (is_subset reserved online) reserved_offline) _ h7 in
    let housekeeping = require_ok (is_subset reserved online) reserved_offline h8 in
    let (v2, h10, h11) = >>=-eq-ok (index raw "thread_sibling_groups") _ h9 in
    let (raws, h12, h13) = >>=-eq-ok (group_list v2) _ h11 in
    let (groups, h14, h15) = >>=-eq-ok (parse_groups raws) _ h13 in
    let (known, h16, h17) = >>=-eq-ok (add_groups online groups []) _ h15 in
    let (keeps, reflexive, own, inside) = add_groups_lem online groups [] known nil-Reflexive h16 in
    let (u1, h18, h19) = >>=-eq-ok (require (is_empty (without_keys online known)) _) _ h17 in
    let covered = require_ok (is_empty (without_keys online known)) _ h18 in
    subst (λ (d : Checked). IsPartitioned d.node) (ok-injective h19)
      (record {
        housekeeping = λ cpu e. all-elem (λ a. elem a online) reserved cpu housekeeping e;
        covered = λ cpu e.
            let (group, found) = without_keys-nil online known cpu covered e in
            (group, found, reflexive cpu group found);
        own = own;
        inside = inside;
      })
