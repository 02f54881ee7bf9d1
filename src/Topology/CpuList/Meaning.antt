-- ===== src/Topology/CpuList/Meaning.antt =====
-- What an accepted CPU list means: the ascending set of the numbers that its tokens cover.
use llm_d_sc_benchmark.Prelude.{
  ℕ, zero, suc, ◌+◌, ◌-◌, ◌≤◌, ◌≡◌, refl, ◌∙◌, ◌≢◌, Bool, false, ◌&&◌, ◌||◌, List, [], ◌∷◌, arith,
  ok, err, ltb, leb, ◌==◌, range_from, any, elem, >>=-eq-ok, Bool-cases, inl, inr, ◌⊎◌, ltb→lt,
}
use mathlib.Core.Path.{subst}
use llm_d_sc_benchmark.Prelude.Decimal.{Text}
use llm_d_sc_benchmark.Topology.CpuList.{
  to_int, parse_token, add_range, parse_tokens, parse_cpu_list,
}
use llm_d_sc_benchmark.Topology.CpuList.Sets.{insert, insert_all, IsSorted}
use llm_d_sc_benchmark.Topology.CpuList.Texts.{strip, split, put_first}

-- The number lies between the bounds of the token.
unfoldable pub covers : ℕ → Text → Bool
covers x token = elim (parse_token (strip token)) [
  | ok bounds ↦ leb bounds.0 x && leb x bounds.1
  | err e ↦ false
]

insert-IsSorted : (lo a : ℕ) (s : List ℕ) → lo ≤ a → IsSorted lo s → IsSorted lo (insert a s)
unfolding insert
insert-IsSorted lo a [] h _ = (h, tt)
insert-IsSorted lo a (b ∷ s) h (hb, hs) = elim (Bool-cases (ltb a b)) [
  | inl e ↦ rw (e, insert) (h, (ltb→lt a b e, hs))
  | inr e ↦ elim (Bool-cases (a == b)) [
    | inl e' ↦ rw (e, e', insert) (hb, hs)
    | inr e' ↦ rw (e, e', insert) (hb, insert-IsSorted (suc b) a s (ground arith) hs)
  ]
]

elem-insert : (x a : ℕ) (s : List ℕ) → elem x (insert a s) ≡ (x == a || elem x s)
unfolding insert
elem-insert x a [] = refl
elem-insert x a (b ∷ s) = ground (arith, elem-insert x a s)

insert-ne-nil : (a : ℕ) (s : List ℕ) → insert a s ≢ []
unfolding insert
insert-ne-nil a [] = λ h. cc
insert-ne-nil a (b ∷ s) = λ h. ground arith

insert_all-IsSorted : (as' s : List ℕ) → IsSorted 0 s → IsSorted 0 (insert_all as' s)
unfolding insert_all
insert_all-IsSorted [] s h = h
insert_all-IsSorted (a ∷ as') s h =
    insert_all-IsSorted as' (insert a s) (insert-IsSorted 0 a s (omega arith) h)

insert_all-ne-nil : (as' s : List ℕ) → s ≢ [] → insert_all as' s ≢ []
unfolding insert_all
insert_all-ne-nil [] s h = h
insert_all-ne-nil (a ∷ as') s h = insert_all-ne-nil as' (insert a s) (insert-ne-nil a s)

elem-insert_all :
    (x n lo : ℕ) (s : List ℕ)
    → elem x (insert_all (range_from lo n) s) ≡ (elem x s || (leb lo x && ltb x (lo + n)))
unfolding insert_all
elem-insert_all x zero lo s = ground arith
elem-insert_all x (suc n) lo s =
    ground (arith, elem-insert_all x n (suc lo) (insert lo s), elem-insert x lo s)

elem-add_range :
    (x a b : ℕ) (s : List ℕ)
    → a ≤ b
    → elem x (add_range s (a, b)) ≡ (elem x s || (leb a x && leb x b))
unfolding add_range
elem-add_range x a b s h = ground (arith, elem-insert_all x (b + 1 - a) a s)

parse_token_le :
    (token : Text) {bounds : ℕ × ℕ} → parse_token token ≡ ok bounds → bounds.0 ≤ bounds.1
unfolding parse_token to_int
parse_token_le token {bounds} h = ground arith

covers-ok :
    (x : ℕ) (token : Text) (bounds : ℕ × ℕ)
    → parse_token (strip token) ≡ ok bounds
    → covers x token ≡ (leb bounds.0 x && leb x bounds.1)
unfolding covers
covers-ok x token bounds h = rw (h, covers)

add_range-IsSorted : (s : List ℕ) (bounds : ℕ × ℕ) → IsSorted 0 s → IsSorted 0 (add_range s bounds)
unfolding add_range
add_range-IsSorted s (a, b) = insert_all-IsSorted (range_from a (b + 1 - a)) s

add_range-ne-nil :
    (s : List ℕ) (bounds : ℕ × ℕ) → (s ≢ []) ⊎ (bounds.0 ≤ bounds.1) → add_range s bounds ≢ []
unfolding add_range insert_all insert
add_range-ne-nil s (a, b) (inl h) = insert_all-ne-nil (range_from a (b + 1 - a)) s h
add_range-ne-nil s (a, b) (inr h) =
    let count : b + 1 - a ≡ suc (b - a) = omega arith in
    rw (count, insert_all)
      (insert_all-ne-nil (range_from (suc a) (b - a)) (insert a s) (insert-ne-nil a s))

-- The loop over the tokens adds exactly what they cover.
parse_tokens_lem :
    (tokens : List Text) (cpus s : List ℕ)
    → IsSorted 0 cpus
    → parse_tokens tokens cpus ≡ ok s
    → IsSorted 0 s
      × ((cpus ≢ []) ⊎ (tokens ≢ []) → s ≢ [])
      × ((x : ℕ) → elem x s ≡ (elem x cpus || any (covers x) tokens))
unfolding parse_tokens
parse_tokens_lem [] cpus s sorted h =
    let e : cpus ≡ s = cc in
    (
      subst (IsSorted 0) e sorted,
      elim [ inl ne ↦ λ nil. ne (e ∙ nil) | inr ne ↦ absurd (ne refl) ],
      λ x. ground arith,
    )
parse_tokens_lem (token ∷ tokens) cpus s sorted h =
    let (bounds, parsed, rest) = >>=-eq-ok (parse_token (strip token)) _ h in
    let ordered = parse_token_le (strip token) parsed in
    let (ih_sorted, ih_full, ih) =
      parse_tokens_lem tokens (add_range cpus bounds) s (add_range-IsSorted cpus bounds sorted)
        rest in
    (
      ih_sorted,
      λ _. ih_full (inl (add_range-ne-nil cpus bounds (inr ordered))),
      λ x. ground (
        arith,
        ih x,
        elem-add_range x bounds.0 bounds.1 cpus ordered,
        covers-ok x token bounds parsed,
      ),
    )

put_first-ne-nil : (c : ℕ) (parts : List Text) → put_first c parts ≢ []
unfolding put_first
put_first-ne-nil c [] = λ h. cc
put_first-ne-nil c (p ∷ ps) = λ h. cc

split-ne-nil : (sep : ℕ) (s : Text) → split sep s ≢ []
unfolding split
split-ne-nil sep [] = λ h. cc
split-ne-nil sep (c ∷ s) = elim (Bool-cases (c == sep)) [
  | inl e ↦ rw (e, split) (λ h. cc)
  | inr e ↦ rw (e, split) (put_first-ne-nil c (split sep s))
]

-- An accepted text stands for an ascending set without repetition that is not empty, and a number is in
-- it exactly if one of the tokens between the commas covers it.
pub parse_cpu_list_lem :
    (value : Text) (s : List ℕ)
    → parse_cpu_list value ≡ ok s
    → IsSorted 0 s × (s ≢ []) × ((x : ℕ) → elem x s ≡ any (covers x) (split b',' (strip value)))
unfolding parse_cpu_list
parse_cpu_list_lem value s h =
    let parsed : parse_tokens (split b',' (strip value)) [] ≡ ok s = ground arith in
    let (sorted, full, members) = parse_tokens_lem (split b',' (strip value)) [] s tt parsed in
    (sorted, full (inr (split-ne-nil b',' (strip value))), members)
