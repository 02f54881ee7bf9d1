-- ===== src/Scale/Evidence.antt =====
-- What the cell-level tests of `decision` say of the fields of a cell.
use text.Mathlib.Text.{◌==◌ as str_eq}
use text.Mathlib.TextEquality.{eq_iff}
use llm_d_sc_benchmark.Prelude.{
  ℕ, ◌<◌, ◌≡◌, refl, sym, ap, ◌∙◌, String, Bool, true, false, ◌||◌, Option, none, some, List, [],
  ◌∷◌, Result, ok, err, ◌⊎◌, inl, inr, Bool-cases, >>=-eq-ok, ok-injective, and-eq-true, ltb→lt,
  ==_iff,
}
use llm_d_sc_benchmark.Prelude.Floats.{Floats}
use llm_d_sc_benchmark.Plan.Gates.{AnalysisRule}
use llm_d_sc_benchmark.Scale.Cells.{
  DecisionError, CellSummary, is_some_eq, and_then, next, threshold, divide, value_of, abs, max,
  min, clean41, stressed42, p99_quotient, p99_spread, relative_delta,
}
use llm_d_sc_benchmark.Scale.Decision.{is_pair, by_id, is_limited}

pub and_then-true :
    (left : Bool) (right : Result DecisionError Bool)
    → and_then left right ≡ ok true
    → (left ≡ true) × (right ≡ ok true)
unfolding and_then
and_then-true true right h = (refl, h)
and_then-true false right h = cc

or-true : (a b : Bool) → (a || b) ≡ true → (a ≡ true) ⊎ (b ≡ true)
or-true true b h = inl refl
or-true false b h = inr h

is_some_eq-eq : (m : Option ℕ) (n : ℕ) → is_some_eq m n ≡ true → m ≡ some n
unfolding is_some_eq
is_some_eq-eq none n h = cc
is_some_eq-eq (some m) n h = ap some ((==_iff m n).0 h)

module _ {F : Type 0} where
  -- One of the cells.
  abbrev pub IsAmong : List (CellSummary F) → CellSummary F → Type 0
  IsAmong [] cell = ⊥
  IsAmong (c ∷ cells) cell = (c ≡ cell) ⊎ IsAmong cells cell

  -- One of the cells, with the id.
  abbrev pub IsNamed : List (CellSummary F) → String → CellSummary F → Type 0
  IsNamed cells id cell = IsAmong cells cell × (cell.cell_id ≡ id)

  -- A knee cell of the block at the rate, which is one of the cells.
  pub record IsPair (cells : List (CellSummary F)) (block offered : ℕ) (cell : CellSummary F)
      : Type 0 where
    pub among : IsAmong cells cell
    pub knee : cell.is_knee ≡ true
    pub block_lem : cell.block ≡ some block
    pub offered_lem : cell.offered ≡ some offered

  next-IsAmong :
      (test : CellSummary F → Bool) (cells : List (CellSummary F)) (cell : CellSummary F)
      → next test cells ≡ ok cell
      → IsAmong cells cell × (test cell ≡ true)
  unfolding next
  next-IsAmong test [] cell h = cc
  next-IsAmong test (c ∷ cells) cell h = elim (Bool-cases (test c)) [
    | inl e ↦ let same = ok-injective (rw (e, next) at h) in (inl same, ap test (sym same) ∙ e)
    | inr e ↦
        let (among, passed) = next-IsAmong test cells cell (rw (e, next) at h) in
        (inr among, passed)
  ]

  pub next-IsPair :
      (cells : List (CellSummary F)) (block offered : ℕ) (cell : CellSummary F)
      → next (is_pair block offered) cells ≡ ok cell
      → IsPair cells block offered cell
  unfolding is_pair
  next-IsPair cells block offered cell h =
      let (among, passed) = next-IsAmong (is_pair block offered) cells cell h in
      let (p, rate) = (and-eq-true _ _).0 passed in
      let (knee, same_block) = (and-eq-true _ _).0 p in
      record {
        among = among;
        knee = knee;
        block_lem = is_some_eq-eq cell.block block same_block;
        offered_lem = is_some_eq-eq cell.offered offered rate;
      }

  found-IsNamed :
      (c : CellSummary F) (cells : List (CellSummary F)) (id : String) (cell : CellSummary F)
      (later : Result DecisionError (CellSummary F))
      → by_id cells id ≡ later
      → ((x : CellSummary F) → by_id cells id ≡ ok x → IsNamed cells id x)
      → by_id (c ∷ cells) id ≡ ok cell
      → IsNamed (c ∷ cells) id cell
  unfolding by_id
  found-IsNamed c cells id cell (ok x) e rest h =
      let same = ok-injective (rw (e, by_id) at h) in
      let (among, name) = rest cell (e ∙ ap ok same) in (inr among, name)
  found-IsNamed c cells id cell (err x) e rest h = elim (Bool-cases (str_eq c.cell_id id)) [
    | inl named ↦
        let same = ok-injective (rw (e, named, by_id) at h) in
        (inl same, ap (λ d. d.cell_id) (sym same) ∙ (eq_iff c.cell_id id).0 named)
    | inr other ↦
        let missing : ◌≡◌ {A = Result DecisionError (CellSummary F)} (err x) (ok cell) =
          rw (e, other, by_id) at h in
        cc
  ]

  pub by_id-IsNamed :
      (cells : List (CellSummary F)) (id : String) (cell : CellSummary F)
      → by_id cells id ≡ ok cell
      → IsNamed cells id cell
  unfolding by_id
  by_id-IsNamed [] id cell h = cc
  by_id-IsNamed (c ∷ cells) id cell h =
      found-IsNamed c cells id cell (by_id cells id) refl (λ x. by_id-IsNamed cells id x) h

module _ {F : Type 0} ⦃fl : Floats F⦄ where
  -- Nearly all requests succeed, nearly none drain, none fails, and the latency is within the limit.
  pub record IsClean (rule : AnalysisRule) (cell : CellSummary F) : Type 0 where
    pub success : fl.le (threshold rule.rate_41_success_min) cell.success_ratio ≡ true
    pub drain : fl.le cell.drain_ratio (threshold rule.rate_41_drain_max) ≡ true
    pub errors : cell.errors_total ≡ 0
    pub latency : F
    pub latency_lem : cell.p99 ≡ some latency
    pub fast : fl.le latency (fl.mul (threshold rule.clean_p99_ms_max) (fl.decimal 1000 0)) ≡ true

  -- Too few requests succeed, too many drain, or some fail.
  abbrev pub IsStressed : AnalysisRule → CellSummary F → Type 0
  IsStressed rule cell =
      (fl.lt cell.success_ratio (threshold rule.rate_41_success_min) ≡ true)
      ⊎ ((fl.lt (threshold rule.rate_41_drain_max) cell.drain_ratio ≡ true)
          ⊎ (0 < cell.errors_total))

  -- The quotient of two numbers, the second of which is not zero.
  abbrev pub IsQuotient : F → F → F → Type 0
  IsQuotient a b q = (fl.eq b (fl.decimal 0 0) ≡ false) × (fl.div a b ≡ q)

  -- The quotient of the latencies of two cells.
  pub record HasRatio (high low : CellSummary F) (q : F) : Type 0 where
    pub above : F
    pub above_lem : high.p99 ≡ some above
    pub below : F
    pub below_lem : low.p99 ≡ some below
    pub quotient : IsQuotient above below q

  -- The quotient of the greater and the smaller latency of two cells.
  pub record HasSpread (post pre : CellSummary F) (q : F) : Type 0 where
    pub after : F
    pub after_lem : post.p99 ≡ some after
    pub before : F
    pub before_lem : pre.p99 ≡ some before
    pub quotient : IsQuotient (max after before) (min after before) q

  pub clean41-IsClean :
      (rule : AnalysisRule) (cell : CellSummary F) → clean41 rule cell ≡ true → IsClean rule cell
  unfolding clean41
  clean41-IsClean rule cell h =
      let (p0, fast) = (and-eq-true _ _).0 h in
      let (p1, errors) = (and-eq-true _ _).0 p0 in
      let (success, drain) = (and-eq-true _ _).0 p1 in
      let (latency, latency_lem, within) = known cell.p99 fast in
      record {
        success = success;
        drain = drain;
        errors = (==_iff cell.errors_total 0).0 errors;
        latency = latency;
        latency_lem = latency_lem;
        fast = within;
      }
    where
      known :
          (p99 : Option F)
          → (elim p99 [
            | none ↦ false
            | some x ↦ fl.le x (fl.mul (threshold rule.clean_p99_ms_max) (fl.decimal 1000 0))
          ])
            ≡ true
          → (x : F) × (p99 ≡ some x)
            × (fl.le x (fl.mul (threshold rule.clean_p99_ms_max) (fl.decimal 1000 0)) ≡ true)
      known none e = cc
      known (some x) e = (x, refl, e)

  pub stressed42-IsStressed :
      (rule : AnalysisRule) (cell : CellSummary F)
      → stressed42 rule cell ≡ true
      → IsStressed rule cell
  unfolding stressed42
  stressed42-IsStressed rule cell h = elim (or-true _ _ h) [
    | inl first ↦ elim (or-true _ _ first) [
      | inl success ↦ inl success
      | inr drain ↦ inr (inl drain)
    ]
    | inr errors ↦ inr (inr (ltb→lt 0 cell.errors_total errors))
  ]

  pub divide-IsQuotient : (a b q : F) → divide a b ≡ ok q → IsQuotient a b q
  unfolding divide
  divide-IsQuotient a b q h = elim (Bool-cases (fl.eq b (fl.decimal 0 0))) [
    | inl e ↦
        let raised : ◌≡◌ {A = Result DecisionError F} (err DecisionError.zero_division) (ok q) =
          rw (e, divide) at h in
        cc
    | inr e ↦ (e, ok-injective (rw (e, divide) at h))
  ]

  pub value_of-some : (value : Option F) (x : F) → value_of value ≡ ok x → value ≡ some x
  unfolding value_of
  value_of-some none x h = cc
  value_of-some (some y) x h = ap some (ok-injective h)

  pub p99_quotient-HasRatio :
      (high low : CellSummary F) (q : F) → p99_quotient high low ≡ ok q → HasRatio high low q
  unfolding p99_quotient
  p99_quotient-HasRatio high low q h =
      let (a, h0, h1) = >>=-eq-ok (value_of high.p99) _ h in
      let (b, h2, h3) = >>=-eq-ok (value_of low.p99) _ h1 in
      record {
        above = a;
        above_lem = value_of-some high.p99 a h0;
        below = b;
        below_lem = value_of-some low.p99 b h2;
        quotient = divide-IsQuotient a b q h3;
      }

  pub p99_spread-HasSpread :
      (post pre : CellSummary F) (q : F) → p99_spread post pre ≡ ok q → HasSpread post pre q
  unfolding p99_spread
  p99_spread-HasSpread post pre q h =
      let (a, h0, h1) = >>=-eq-ok (value_of post.p99) _ h in
      let (b, h2, h3) = >>=-eq-ok (value_of pre.p99) _ h1 in
      record {
        after = a;
        after_lem = value_of-some post.p99 a h0;
        before = b;
        before_lem = value_of-some pre.p99 b h2;
        quotient = divide-IsQuotient (max a b) (min a b) q h3;
      }

  pub relative_delta-IsQuotient :
      (after before q : F)
      → relative_delta after before ≡ ok q
      → IsQuotient (abs (fl.sub after before)) before q
  unfolding relative_delta
  relative_delta-IsQuotient after before = divide-IsQuotient (abs (fl.sub after before)) before

  -- The value is there and within the limit.
  abbrev pub IsLimited : Option F → F → Type 0
  IsLimited value limit = (x : F) × (value ≡ some x) × (fl.le x limit ≡ true)

  pub is_limited-IsLimited :
      (median : List F → F) (value : Option F) (limit : F)
      → is_limited median value limit ≡ ok true
      → IsLimited value limit
  unfolding is_limited
  is_limited-IsLimited median value limit h =
      let (x, h0, h1) = >>=-eq-ok (value_of value) _ h in
      (x, value_of-some value x h0, ok-injective h1)
