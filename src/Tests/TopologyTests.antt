-- ===== src/Tests/TopologyTests.antt =====
-- Witnesses for the CPU lists of hack/arena-sc-topology-preflight.py.
use llm_d_sc_benchmark.Prelude.{ℕ, ◌≡◌, refl, ◌≢◌, List, [], ◌∷◌, arith, ok, any, elem, All}
use llm_d_sc_benchmark.Prelude.Decimal.{Text, codes, decimal}
use llm_d_sc_benchmark.Topology.CpuList.{
  to_int, parse_token, add_range, parse_tokens, parse_cpu_list, format_cpu_list,
}
use llm_d_sc_benchmark.Topology.CpuList.Sets.{insert, insert_all, IsSorted}
use llm_d_sc_benchmark.Topology.CpuList.Texts.{
  is_space, lstrip, put_unless_blank, rstrip, strip, put_first, split, split_once, is_digits,
}
use llm_d_sc_benchmark.Topology.CpuList.RoundTrip.{IsShort, parse-format}
use llm_d_sc_benchmark.Topology.CpuList.Meaning.{covers, parse_cpu_list_lem}

abbrev cpus : List ℕ
cpus = 0 ∷ 1 ∷ 2 ∷ 5 ∷ []

abbrev listing : Text
listing = codes " 5, 0-2 "

listing_lem : parse_cpu_list listing ≡ ok cpus
unfolding parse_cpu_list strip rstrip lstrip is_space put_unless_blank parse_tokens split put_first
    to_int parse_token split_once is_digits add_range insert_all insert
listing_lem = refl

cpus-IsShort : All IsShort cpus
unfolding decimal
cpus-IsShort = (omega arith, (omega arith, (omega arith, (omega arith, tt))))

parse-format_example : parse_cpu_list (format_cpu_list cpus) ≡ ok cpus
parse-format_example =
    parse-format 0 (1 ∷ 2 ∷ 5 ∷ []) (omega arith, (omega arith, (omega arith, tt))) cpus-IsShort

parse_cpu_list_lem_example :
    IsSorted 0 cpus
    × (cpus ≢ [])
    × ((x : ℕ) → elem x cpus ≡ any (covers x) (split b',' (strip listing)))
parse_cpu_list_lem_example = parse_cpu_list_lem listing cpus listing_lem
