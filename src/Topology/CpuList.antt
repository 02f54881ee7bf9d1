-- ===== src/Topology/CpuList.antt =====
-- hack/arena-sc-topology-preflight.py: `parse_cpu_list` and `format_cpu_list`, the Linux cpulist syntax.
-- A text is the list of its code points, and a set of numbers the ascending list of its members.
pub mod Sets
pub mod Texts
pub mod RoundTrip
pub mod Meaning
use llm_d_sc_benchmark.Prelude.{
  ℕ, ◌+◌, ◌-◌, Bool, true, false, ◌&&◌, Option, none, some, List, [], ◌∷◌, ◌++◌, map, Result, ok,
  err, ◌>>=◌, ◌>>◌, require, ltb, leb, length, ◌==◌, if◌then◌else◌, range_from,
}
use llm_d_sc_benchmark.Prelude.Decimal.{Text, decimal, value_from}
use Sets.{insert_all}
use Texts.{strip, split, join, split_once, is_digits}

-- The exceptions of `parse_cpu_list`.
pub data CpuListError : Type 0 where
  empty_cpu_list : CpuListError
  invalid_token : Text → CpuListError
  descending_range : Text → CpuListError
  -- the `ValueError` of `int`, which is no `EvidenceError`
  too_many_digits : CpuListError

-- `int(text)`, of decimal digits: Python refuses to convert more than 4300 of them.
unfoldable pub to_int : Text → Result CpuListError ℕ
to_int text = do require (leb (length text) 4300) too_many_digits; ok (value_from 0 text)

-- `CPU_TOKEN.fullmatch(token)`, and the bounds that the token denotes.
unfoldable pub parse_token : Text → Result CpuListError (ℕ × ℕ)
parse_token token = elim (split_once b'-' token).1 [
  | none ↦
      if is_digits token then (to_int token >>= λ cpu. ok (cpu, cpu)) else err (invalid_token token)
  | some last_text ↦
      if is_digits (split_once b'-' token).0 && is_digits last_text
      then (do
        first ← to_int (split_once b'-' token).0
        last ← to_int last_text
        if ltb last first then err (descending_range token) else ok (first, last))
      else err (invalid_token token)
]

-- `cpus.update(range(first, last + 1))`; a single number is its own range.
unfoldable pub add_range : List ℕ → ℕ × ℕ → List ℕ
add_range cpus (first, last) = insert_all (range_from first (last + 1 - first)) cpus

-- The loop over the tokens.
unfoldable pub parse_tokens : List Text → List ℕ → Result CpuListError (List ℕ)
parse_tokens [] cpus = ok cpus
parse_tokens (token ∷ tokens) cpus = do
  bounds ← parse_token (strip token)
  parse_tokens tokens (add_range cpus bounds)

is_empty : Text → Bool
is_empty [] = true
is_empty (c ∷ s) = false

unfoldable pub parse_cpu_list : Text → Result CpuListError (List ℕ)
unfolding is_empty
parse_cpu_list value =
    if is_empty (strip value)
    then err empty_cpu_list
    else parse_tokens (split b',' (strip value)) []

-- The loop of `format_cpu_list` with its variables `first` and `previous`: the ranges that it prints.
unfoldable pub ranges_from : ℕ → ℕ → List ℕ → List (ℕ × ℕ)
ranges_from first previous [] = (first, previous) ∷ []
ranges_from first previous (cpu ∷ rest) = elim (cpu == previous + 1) [
  | true ↦ ranges_from first cpu rest
  | false ↦ (first, previous) ∷ ranges_from cpu cpu rest
]

unfoldable pub range_text : ℕ × ℕ → Text
range_text (first, previous) =
    if first == previous then decimal first else decimal first ++ b'-' ∷ decimal previous

-- For numbers that `str` prints, which are those of at most 4300 digits.
unfoldable pub format_cpu_list : List ℕ → Text
format_cpu_list [] = []
format_cpu_list (first ∷ rest) = join b',' (map range_text (ranges_from first first rest))
