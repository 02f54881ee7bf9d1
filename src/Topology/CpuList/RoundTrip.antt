-- ===== src/Topology/CpuList/RoundTrip.antt =====
-- Parsing the text of a set of CPUs gives the set back.
use mathlib.Core.List.{foldl, append-ne-nil_of_right_ne-nil, cons-ne-nil}
use mathlib.Core.Path.{subst}
use llm_d_sc_benchmark.Prelude.{
  ℕ, suc, ◌+◌, ◌-◌, ◌≤◌, ◌<◌, ◌≡◌, refl, ap, ◌∙◌, ◌≢◌, false, List, [], ◌∷◌, ◌++◌, map,
  append_assoc, append-nil, arith, ok, length, ◌==◌, range_from, All, All-append, All-map,
  Bool-cases, inl, inr,
}
use llm_d_sc_benchmark.Prelude.Decimal.{
  Text, decimal, value_from, value_from-decimal, All-IsDigit-decimal, decimal-ne-nil, IsDigit,
}
use llm_d_sc_benchmark.Topology.CpuList.{
  to_int, parse_token, add_range, parse_tokens, parse_cpu_list, ranges_from, range_text,
  format_cpu_list,
}
use llm_d_sc_benchmark.Topology.CpuList.Sets.{
  IsSorted, Below, Below-mono, Below-range_from, insert_all-range, range_from-snoc,
}
use llm_d_sc_benchmark.Topology.CpuList.Texts.{
  is_space, split, join, Lacks, HasNoSpace, split-join, split_once-Lacks, split_once-append,
  strip_lem, is_digits_lem,
}

digits-Lacks : (s : Text) → All IsDigit s → Lacks b'-' s
digits-Lacks s = All-map IsDigit (λ c. c ≢ b'-') (λ c h. omega arith) s

parse_single :
    (s : Text)
    → s ≢ []
    → All IsDigit s
    → length s ≤ 4300
    → parse_token s ≡ ok (value_from 0 s, value_from 0 s)
unfolding parse_token to_int
parse_single s ne h short =
    ground (arith, split_once-Lacks b'-' s (digits-Lacks s h), is_digits_lem s ne h)

parse_pair :
    (s t : Text)
    → s ≢ []
    → All IsDigit s
    → t ≢ []
    → All IsDigit t
    → value_from 0 s ≤ value_from 0 t
    → length s ≤ 4300
    → length t ≤ 4300
    → parse_token (s ++ b'-' ∷ t) ≡ ok (value_from 0 s, value_from 0 t)
unfolding parse_token to_int
parse_pair s t ns hs nt ht h short_s short_t = ground (
  arith,
  split_once-append b'-' s t (digits-Lacks s hs),
  is_digits_lem s ns hs,
  is_digits_lem t nt ht,
)

-- The number prints to at most as many digits as `int` converts.
abbrev pub IsShort : ℕ → Type 0
IsShort a = length (decimal a) ≤ 4300

parse_token-range_text :
    (a b : ℕ) → a ≤ b → IsShort a → IsShort b → parse_token (range_text (a, b)) ≡ ok (a, b)
unfolding range_text
parse_token-range_text a b h short_a short_b =
    let single = parse_single (decimal a) (decimal-ne-nil a) (All-IsDigit-decimal a) short_a in
    let ordered : value_from 0 (decimal a) ≤ value_from 0 (decimal b) =
      rw (value_from-decimal a, value_from-decimal b) h in
    let pair =
      parse_pair (decimal a) (decimal b) (decimal-ne-nil a) (All-IsDigit-decimal a)
        (decimal-ne-nil b) (All-IsDigit-decimal b) ordered short_a short_b in
    ground (arith, single, pair, value_from-decimal a, value_from-decimal b)

-- The characters of a printed range: digits and the dash.
abbrev IsRangeChar : ℕ → Type 0
IsRangeChar c = (b'-' ≤ c) × (c ≤ b'9')

All-IsRangeChar-decimal : (a : ℕ) → All IsRangeChar (decimal a)
All-IsRangeChar-decimal a =
    All-map IsDigit IsRangeChar (λ c h. omega arith) (decimal a) (All-IsDigit-decimal a)

All-IsRangeChar-range_text : (r : ℕ × ℕ) → All IsRangeChar (range_text r)
unfolding range_text
All-IsRangeChar-range_text (a, b) = elim (Bool-cases (a == b)) [
  | inl e ↦ rw (e, range_text) (All-IsRangeChar-decimal a)
  | inr e ↦
      rw (e, range_text)
        (All-append IsRangeChar (decimal a) (b'-' ∷ decimal b) (All-IsRangeChar-decimal a)
          (omega arith, All-IsRangeChar-decimal b))
]

range_text-Lacks : (rs : List (ℕ × ℕ)) → All (Lacks b',') (map range_text rs)
range_text-Lacks [] = tt
range_text-Lacks (r ∷ rs) = (
  All-map IsRangeChar (λ c. c ≢ b',') (λ c h. omega arith) (range_text r)
      (All-IsRangeChar-range_text r),
  range_text-Lacks rs,
)

IsRangeChar-space : (c : ℕ) → IsRangeChar c → is_space c ≡ false
unfolding is_space
IsRangeChar-space c h = ground arith

range_text-HasNoSpace : (r : ℕ × ℕ) → HasNoSpace (range_text r)
range_text-HasNoSpace r =
    All-map IsRangeChar (λ c. is_space c ≡ false) IsRangeChar-space (range_text r)
      (All-IsRangeChar-range_text r)

abbrev IsRange : ℕ × ℕ → Type 0
IsRange (a, b) = (a ≤ b) × IsShort a × IsShort b

parse_tokens-map :
    (rs : List (ℕ × ℕ)) (cpus : List ℕ)
    → All IsRange rs
    → parse_tokens (map range_text rs) cpus ≡ ok (foldl add_range cpus rs)
unfolding parse_tokens
parse_tokens-map [] cpus h = refl
parse_tokens-map ((a, b) ∷ rs) cpus ((h, short_a, short_b), hs) =
    rw
      (
        strip_lem (range_text (a, b)) (range_text-HasNoSpace (a, b)),
        parse_token-range_text a b h short_a short_b,
      )
      (parse_tokens-map rs (add_range cpus (a, b)) hs)

ranges_from-IsRange :
    (first previous : ℕ) (rest : List ℕ)
    → IsRange (first, previous)
    → IsSorted (suc previous) rest
    → All IsShort rest
    → All IsRange (ranges_from first previous rest)
unfolding ranges_from
ranges_from-IsRange first previous [] h s short = (h, tt)
ranges_from-IsRange first previous (cpu ∷ rest) (h, f, p) (lt, s) (c, short) =
    elim (Bool-cases (cpu == previous + 1)) [
      | inl e ↦ rw (e, ranges_from) (ranges_from-IsRange first cpu rest (omega arith, f, c) s short)
      | inr e ↦
          rw (e, ranges_from)
            ((h, f, p), ranges_from-IsRange cpu cpu rest (omega arith, c, c) s short)
    ]

range_from-split :
    (first previous : ℕ)
    → first ≤ previous
    → range_from first (suc previous + 1 - first)
      ≡ range_from first (previous + 1 - first) ++ suc previous ∷ []
range_from-split first previous h =
    let count : suc previous + 1 - first ≡ suc (previous + 1 - first) = omega arith in
    let last : first + (previous + 1 - first) ≡ suc previous = omega arith in
    rw (count, range_from-snoc first (previous + 1 - first), last)

add_range-Below :
    (first previous : ℕ) (cpus : List ℕ)
    → Below first cpus
    → add_range cpus (first, previous) ≡ cpus ++ range_from first (previous + 1 - first)
unfolding add_range
add_range-Below first previous cpus = insert_all-range (previous + 1 - first) first cpus

range_from-one : (cpu : ℕ) → range_from cpu (cpu + 1 - cpu) ≡ cpu ∷ []
range_from-one cpu = let one : cpu + 1 - cpu ≡ 1 = omega arith in rw one

-- The ranges, added one after another to a set below them, add the numbers that they were made of.
foldl-ranges :
    (first previous : ℕ) (rest cpus : List ℕ)
    → first ≤ previous
    → IsSorted (suc previous) rest
    → Below first cpus
    → foldl add_range cpus (ranges_from first previous rest)
      ≡ (cpus ++ range_from first (previous + 1 - first)) ++ rest
unfolding ranges_from
foldl-ranges first previous [] cpus h s b = rw (add_range-Below first previous cpus b, append-nil)
foldl-ranges first previous (cpu ∷ rest) cpus h (lt, s) b =
    elim (Bool-cases (cpu == previous + 1)) [
      | inl e ↦
          rw (e, ranges_from)
            (let next : cpu ≡ suc previous = ground arith in
              let known = range_from first (previous + 1 - first) in
              cc (
                foldl-ranges first cpu rest cpus (omega arith) s b,
                range_from-split first previous h,
                append_assoc cpus known (suc previous ∷ []),
                append_assoc (cpus ++ known) (suc previous ∷ []) rest,
              ))
      | inr e ↦
          rw (e, ranges_from)
            (let known = cpus ++ range_from first (previous + 1 - first) in
              let far : previous < cpu = omega arith in
              let below =
                All-append (λ a. a < cpu) cpus (range_from first (previous + 1 - first))
                  (Below-mono first cpu cpus (omega arith) b)
                  (Below-range_from first (previous + 1 - first) cpu (omega arith)) in
              cc (
                add_range-Below first previous cpus b,
                foldl-ranges cpu cpu rest known (omega arith) s below,
                range_from-one cpu,
                append_assoc known (cpu ∷ []) rest,
              ))
    ]

range_text-ne-nil : (r : ℕ × ℕ) → range_text r ≢ []
unfolding range_text
range_text-ne-nil (a, b) = elim (Bool-cases (a == b)) [
  | inl e ↦ rw (e, range_text) (decimal-ne-nil a)
  | inr e ↦
      rw (e, range_text) (append-ne-nil_of_right_ne-nil (decimal a) (cons-ne-nil b'-' (decimal b)))
]

join-ne-nil : (p : Text) (ps : List Text) → p ≢ [] → join b',' (p ∷ ps) ≢ []
unfolding join
join-ne-nil p [] h = h
join-ne-nil p (q ∷ ps) h = append-ne-nil_of_right_ne-nil p (cons-ne-nil b',' (join b',' (q ∷ ps)))

join-HasNoSpace :
    (p : Text) (ps : List Text) → All HasNoSpace (p ∷ ps) → HasNoSpace (join b',' (p ∷ ps))
unfolding join
join-HasNoSpace p [] (h, _) = h
join-HasNoSpace p (q ∷ ps) (h, hs) =
    All-append (λ c. is_space c ≡ false) p (b',' ∷ join b',' (q ∷ ps)) h
      (unfold is_space in refl, join-HasNoSpace q ps hs)

map-HasNoSpace : (rs : List (ℕ × ℕ)) → All HasNoSpace (map range_text rs)
map-HasNoSpace [] = tt
map-HasNoSpace (r ∷ rs) = (range_text-HasNoSpace r, map-HasNoSpace rs)

parse_unempty :
    (s : Text) → s ≢ [] → HasNoSpace s → parse_cpu_list s ≡ parse_tokens (split b',' s) []
unfolding parse_cpu_list
parse_unempty [] ne h = absurd (ne refl)
parse_unempty (c ∷ s) ne h = rw (strip_lem (c ∷ s) h)

parse-join :
    (r : ℕ × ℕ) (rs : List (ℕ × ℕ))
    → All IsRange (r ∷ rs)
    → parse_cpu_list (join b',' (map range_text (r ∷ rs))) ≡ ok (foldl add_range [] (r ∷ rs))
parse-join r rs h =
    parse_unempty _ (join-ne-nil (range_text r) (map range_text rs) (range_text-ne-nil r))
      (join-HasNoSpace (range_text r) (map range_text rs) (map-HasNoSpace (r ∷ rs)))
    ∙ (ap (λ tokens. parse_tokens tokens [])
          (split-join b',' (range_text r) (map range_text rs) (range_text-Lacks (r ∷ rs)))
        ∙ parse_tokens-map (r ∷ rs) [] h)

ranges_from-cons :
    (first previous : ℕ) (rest : List ℕ)
    → (r : ℕ × ℕ) × (rs : List (ℕ × ℕ)) × (ranges_from first previous rest ≡ r ∷ rs)
unfolding ranges_from
ranges_from-cons first previous [] = ((first, previous), [], refl)
ranges_from-cons first previous (cpu ∷ rest) = elim (Bool-cases (cpu == previous + 1)) [
  | inl e ↦ rw (e, ranges_from) (ranges_from-cons first cpu rest)
  | inr e ↦ ((first, previous), ranges_from cpu cpu rest, rw (e, ranges_from))
]

-- Parsing the text of a non-empty ascending set of CPU numbers, each of at most 4300 digits, gives the set back.
pub parse-format :
    (first : ℕ) (rest : List ℕ)
    → IsSorted (suc first) rest
    → All IsShort (first ∷ rest)
    → parse_cpu_list (format_cpu_list (first ∷ rest)) ≡ ok (first ∷ rest)
unfolding format_cpu_list
parse-format first rest s (short, shorts) =
    let (r, rs, e) = ranges_from-cons first first rest in
    let ranges =
      subst (All IsRange) e
        (ranges_from-IsRange first first rest (omega arith, short, short) s shorts) in
    let sum = foldl-ranges first first rest [] (omega arith) s tt in
    rw e (cc (parse-join r rs ranges, ap (foldl add_range []) e, sum, range_from-one first))
