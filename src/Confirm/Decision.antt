-- ===== src/Confirm/Decision.antt =====
-- What the decision of `analyze` rests on.
use llm_d_sc_benchmark.Prelude.{
  ℕ, ◌≡◌, refl, sym, Bool, true, ◌||◌, Option, none, some, List, [], ◌∷◌, arith, pos, ok, ltb_ℤ,
  all, All, >>=-eq-ok, ok-injective, and-eq-true,
}
use mathlib.Core.Path.{subst}
use llm_d_sc_benchmark.Prelude.Floats.{Floats}
use llm_d_sc_benchmark.Confirm.Cells.{ParsedCell, zero_f, one_f}
use llm_d_sc_benchmark.Confirm.Runtime.{passed}
use llm_d_sc_benchmark.Confirm.Orders.{low_rate, high_rate, ByRate, cell_at}
use llm_d_sc_benchmark.Confirm.Blocks.{
  Block, is_some_and, clean_p99_limit_us, low_checks, stress_signal, latency_ratio_of, high_checks,
  direction_checks_of, make_block, make_blocks, is_clean, is_stressed, directions_agree,
}
use llm_d_sc_benchmark.Confirm.Found.{==ℤ-pos}

is_some_and-eq-true :
    {A : Type 0} (test : A → Bool) (o : Option A)
    → is_some_and test o ≡ true
    → (a : A) × (o ≡ some a) × (test a ≡ true)
unfolding is_some_and
is_some_and-eq-true test none h = cc
is_some_and-eq-true test (some a) h = (a, refl, h)

module _ {F : Type 0} ⦃fl : Floats F⦄ where
  -- The service is clean at the lower rate.
  pub record IsClean (low : ParsedCell F) : Type 0 where
    pub success : fl.le (fl.decimal 99 2) low.load.success_ratio ≡ true
    pub drain : fl.le low.load.drain_ratio (fl.decimal 1 2) ≡ true
    pub errors : low.load.errors ≡ pos 0
    pub in_flight_drops : low.load.in_flight_drops ≡ pos 0
    pub health : low.attribution.health_violations ≡ pos 0
    pub telemetry_complete : low.attribution.telemetry_complete ≡ true
    pub telemetry_supporting : low.attribution.telemetry_supporting ≡ true
    pub latency :
        (p99 : F) × (low.latency.p99_us ≡ some p99) × (fl.le p99 clean_p99_limit_us ≡ true)

  -- The service is stressed at the higher rate, against the cell of the same block at the lower one.
  pub record IsStressed (low high : ParsedCell F) : Type 0 where
    pub signal :
        (fl.lt high.load.success_ratio (fl.decimal 99 2)
          || fl.lt (fl.decimal 1 2) high.load.drain_ratio
          || ltb_ℤ (pos 0) high.load.errors)
        ≡ true
    pub latency :
        (before after : F) × (low.latency.p99_us ≡ some before)
        × (high.latency.p99_us ≡ some after)
        × (fl.lt zero_f before ≡ true)
        × (fl.lt (fl.decimal 125 2) (fl.div after before) ≡ true)

  latency_ratio_of-some :
      (low high : Option F) (ratio : F)
      → latency_ratio_of low high ≡ some ratio
      → (before after : F) × (low ≡ some before)
        × (high ≡ some after)
        × (fl.lt zero_f before ≡ true)
        × (fl.div after before ≡ ratio)
  unfolding latency_ratio_of
  latency_ratio_of-some none high ratio h = cc
  latency_ratio_of-some (some low) none ratio h = cc
  latency_ratio_of-some (some low) (some high) ratio h =
      (low, high, refl, refl, ground arith, ground arith)

  low_checks-IsClean : (low : ParsedCell F) → passed (low_checks low) ≡ true → IsClean low
  unfolding low_checks passed
  low_checks-IsClean low h = record {
    success = ground arith;
    drain = ground arith;
    errors = ==ℤ-pos low.load.errors 0 (ground arith);
    in_flight_drops = ==ℤ-pos low.load.in_flight_drops 0 (ground arith);
    health = ==ℤ-pos low.attribution.health_violations 0 (ground arith);
    telemetry_complete = ground arith;
    telemetry_supporting = ground arith;
    latency =
        is_some_and-eq-true (λ p99. fl.le p99 clean_p99_limit_us) low.latency.p99_us (ground arith);
  }

  high_checks-IsStressed :
      (low high : ParsedCell F)
      → passed (high_checks high (latency_ratio_of low.latency.p99_us high.latency.p99_us)) ≡ true
      → IsStressed low high
  unfolding high_checks passed stress_signal
  high_checks-IsStressed low high h =
      let (ratio, found, above) =
        is_some_and-eq-true (fl.lt (fl.decimal 125 2))
          (latency_ratio_of low.latency.p99_us high.latency.p99_us) (ground arith) in
      let (before, after, h0, h1, h2, h3) =
        latency_ratio_of-some low.latency.p99_us high.latency.p99_us ratio found in
      record {
        signal = ground arith;
        latency = (
          before,
          after,
          h0,
          h1,
          h2,
          subst (λ r. fl.lt (fl.decimal 125 2) r ≡ true) (sym h3) above,
        );
      }

  -- The four paired effects point the same way.
  pub record IsDirected (low high : ParsedCell F) : Type 0 where
    pub success : fl.lt (fl.sub high.load.success_ratio low.load.success_ratio) zero_f ≡ true
    pub drain : fl.lt zero_f (fl.sub high.load.drain_ratio low.load.drain_ratio) ≡ true
    pub useful : fl.lt (fl.sub high.load.useful_rps low.load.useful_rps) one_f ≡ true

  direction_checks_of-IsDirected :
      (low high : ParsedCell F)
      → directions_agree (make_block 0 low high) ≡ true
      → IsDirected low high
  unfolding make_block direction_checks_of passed
  direction_checks_of-IsDirected low high h = record {
    success = ground arith;
    drain = ground arith;
    useful = ground arith;
  }

  -- A block shows the knee: its two cells exist, and the service is clean at 41 and stressed at 42.
  pub record ShowsKnee (points : ByRate F) (block : ℕ) : Type 0 where
    pub low : ParsedCell F
    pub high : ParsedCell F
    pub low_found : cell_at points low_rate block ≡ ok low
    pub high_found : cell_at points high_rate block ≡ ok high
    pub clean : IsClean low
    pub stressed : IsStressed low high
    pub directed : IsDirected low high

  pub make_block-ShowsKnee :
      (points : ByRate F) (block : ℕ) (low high : ParsedCell F)
      → cell_at points low_rate block ≡ ok low
      → cell_at points high_rate block ≡ ok high
      → is_clean (make_block block low high) ≡ true
      → is_stressed (make_block block low high) ≡ true
      → directions_agree (make_block block low high) ≡ true
      → ShowsKnee points block
  unfolding make_block
  make_block-ShowsKnee points block low high low_found high_found clean stressed directed = record {
    low = low;
    high = high;
    low_found = low_found;
    high_found = high_found;
    clean = low_checks-IsClean low clean;
    stressed = high_checks-IsStressed low high stressed;
    directed = direction_checks_of-IsDirected low high directed;
  }

  pub make_blocks-ShowsKnee :
      (points : ByRate F) (numbers : List ℕ) (made : List (Block F))
      → make_blocks points numbers ≡ ok made
      → all is_clean made ≡ true
      → all is_stressed made ≡ true
      → all directions_agree made ≡ true
      → All (ShowsKnee points) numbers
  unfolding make_blocks
  make_blocks-ShowsKnee points [] made h clean stressed directed = tt
  make_blocks-ShowsKnee points (block ∷ numbers) made h clean stressed directed =
      let (low, h0, h1) = >>=-eq-ok (cell_at points low_rate block) _ h in
      let (high, h2, h3) = >>=-eq-ok (cell_at points high_rate block) _ h1 in
      let (rest, h4, h5) = >>=-eq-ok (make_blocks points numbers) _ h3 in
      let same = sym (ok-injective h5) in
      let (clean0, clean1) =
        (and-eq-true (is_clean (make_block block low high)) (all is_clean rest)).0
          (subst (λ m. all is_clean m ≡ true) same clean) in
      let (stressed0, stressed1) =
        (and-eq-true (is_stressed (make_block block low high)) (all is_stressed rest)).0
          (subst (λ m. all is_stressed m ≡ true) same stressed) in
      let (directed0, directed1) =
        (and-eq-true (directions_agree (make_block block low high)) (all directions_agree rest)).0
          (subst (λ m. all directions_agree m ≡ true) same directed) in
      (
        make_block-ShowsKnee points block low high h0 h2 clean0 stressed0 directed0,
        make_blocks-ShowsKnee points numbers rest h4 clean1 stressed1 directed1,
      )
