-- ===== src/Capacity/Listed.antt =====
-- hack/arena-sc-horizontal-scale-preflight.py: a node that `evaluate` finds is an item of the snapshot of its name.
use llm_d_sc_benchmark.Prelude.{
  ◌≡◌, ap, ◌∙◌, String, Option, none, some, List, [], ◌∷◌, ok, ◌⊎◌, inl, inr, Bool-cases,
  Option-cases, >>=-eq-ok, >>=-ok, ok-injective, require,
}
use llm_d_sc_benchmark.Prelude.Json.{Json, str}
use llm_d_sc_benchmark.Capacity.Quantities.{type_error}
use llm_d_sc_benchmark.Capacity.Snapshot.{child, lookup, is_text, is_hashable}
use llm_d_sc_benchmark.Capacity.Nodes.{named_nodes, find_node}
use llm_d_sc_benchmark.Capacity.Active.{HasValue, is_text-true}

module _ {F : Type 0} where
  -- The node is one of the items, and its "metadata" has the name.
  abbrev pub IsListed : String → List (Json F) → Json F → Type 0
  IsListed name [] node = ⊥
  IsListed name (item ∷ items) node =
      ((item ≡ node) × HasValue item "metadata" "name" (some (str name))) ⊎ IsListed name items node

  some-injective : (a b : Json F) → ◌≡◌ {A = Option (Json F)} (some a) (some b) → a ≡ b
  some-injective a b h = cc

  found_first :
      (key : Option (Json F)) (item : Json F) (rest : List (Option (Json F) × Json F))
      (name : String) (node : Json F)
      → find_node ((key, item) ∷ rest) name ≡ some node
      → (find_node rest name ≡ some node) ⊎ ((item ≡ node) × (key ≡ some (str name)))
  unfolding find_node
  found_first key item rest name node h = elim (Option-cases (find_node rest name)) [
    | inl e ↦ elim (Bool-cases (is_text key name)) [
      | inl e' ↦
          inr (some-injective item node (rw (e, e', find_node) at h), is_text-true key name e')
      | inr e' ↦
          let missing : ◌≡◌ {A = Option (Json F)} none (some node) = rw (e, e', find_node) at h in
          cc
    ]
    | inr (later, e) ↦ inl (e ∙ (rw (e, find_node) at h))
  ]

  pub find_node-IsListed :
      (items : List (Json F)) (named : List (Option (Json F) × Json F)) (name : String)
      (node : Json F)
      → named_nodes items ≡ ok named
      → find_node named name ≡ some node
      → IsListed name items node
  unfolding named_nodes find_node
  find_node-IsListed [] named name node h found =
      let missing : ◌≡◌ {A = Option (Json F)} none (some node) =
        ap (λ n. find_node n name) (ok-injective h) ∙ found in
      cc
  find_node-IsListed (item ∷ items) named name node h found =
      let (metadata, h0, h1) = >>=-eq-ok (child item "metadata") _ h in
      let (key, h2, h3) = >>=-eq-ok (lookup metadata "name") _ h1 in
      let (u, h4, h5) = >>=-eq-ok (require (is_hashable key) type_error) _ h3 in
      let (rest, h6, h7) = >>=-eq-ok (named_nodes items) _ h5 in
      let here = ap (λ n. find_node n name) (ok-injective h7) ∙ found in
      elim (found_first key item rest name node here) [
        | inl later ↦ inr (find_node-IsListed items rest name node h6 later)
        | inr (same, named_so) ↦ inl (same, >>=-ok _ h0 ∙ (h2 ∙ ap ok named_so))
      ]
