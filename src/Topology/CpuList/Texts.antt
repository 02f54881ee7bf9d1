-- ===== src/Topology/CpuList/Texts.antt =====
-- Python's `strip`, `split`, `split` at the first occurrence, and `join`.
use llm_d_sc_benchmark.Prelude.{
  ℕ, ◌≡◌, refl, ◌≢◌, Bool, true, false, ◌&&◌, ◌||◌, Option, none, some, List, [], ◌∷◌, ◌++◌, arith,
  leb, ◌==◌, if◌then◌else◌, all, All,
}
use llm_d_sc_benchmark.Prelude.Decimal.{Text, is_digit, IsDigit}

-- `str.isspace` of one code point
unfoldable pub is_space : ℕ → Bool
is_space c =
    leb 9 c && leb c 13
    || leb 28 c && leb c 32
    || c == 0x85
    || c == 0xa0
    || c == 0x1680
    || leb 0x2000 c && leb c 0x200a
    || c == 0x2028
    || c == 0x2029
    || c == 0x202f
    || c == 0x205f
    || c == 0x3000

unfoldable pub lstrip : Text → Text
lstrip [] = []
lstrip (c ∷ s) = if is_space c then lstrip s else c ∷ s

unfoldable pub put_unless_blank : ℕ → Text → Text
put_unless_blank c [] = if is_space c then [] else c ∷ []
put_unless_blank c (d ∷ s) = c ∷ d ∷ s

unfoldable pub rstrip : Text → Text
rstrip [] = []
rstrip (c ∷ s) = put_unless_blank c (rstrip s)

unfoldable pub strip : Text → Text
strip s = rstrip (lstrip s)

unfoldable pub put_first : ℕ → List Text → List Text
put_first c [] = (c ∷ []) ∷ []
put_first c (part ∷ parts) = (c ∷ part) ∷ parts

unfoldable pub split : ℕ → Text → List Text
split sep [] = [] ∷ []
split sep (c ∷ s) = if c == sep then [] ∷ split sep s else put_first c (split sep s)

unfoldable pub join : ℕ → List Text → Text
join sep [] = []
join sep (p ∷ []) = p
join sep (p ∷ q ∷ ps) = p ++ sep ∷ join sep (q ∷ ps)

-- The text before the first separator, and what stands behind it.
unfoldable pub split_once : ℕ → Text → Text × Option Text
split_once sep [] = ([], none)
split_once sep (c ∷ s) =
    let rest = split_once sep s in if c == sep then ([], some s) else (c ∷ rest.0, rest.1)

-- `[0-9]+`
unfoldable pub is_digits : Text → Bool
is_digits [] = false
is_digits (c ∷ s) = all is_digit (c ∷ s)

abbrev pub Lacks : ℕ → Text → Type 0
Lacks sep = All (λ c. c ≢ sep)

pub split-Lacks : (sep : ℕ) (p : Text) → Lacks sep p → split sep p ≡ p ∷ []
unfolding split put_first
split-Lacks sep [] h = refl
split-Lacks sep (c ∷ p) (hc, hp) = rw (split-Lacks sep p hp) (ground arith)

pub split-append :
    (sep : ℕ) (p rest : Text) → Lacks sep p → split sep (p ++ sep ∷ rest) ≡ p ∷ split sep rest
unfolding split put_first
split-append sep [] rest h = ground arith
split-append sep (c ∷ p) rest (hc, hp) = rw (split-append sep p rest hp) (ground arith)

-- Splitting what was joined gives the parts back.
pub split-join :
    (sep : ℕ) (p : Text) (ps : List Text)
    → All (Lacks sep) (p ∷ ps)
    → split sep (join sep (p ∷ ps)) ≡ p ∷ ps
unfolding join
split-join sep p [] (h, _) = split-Lacks sep p h
split-join sep p (q ∷ ps) (h, hs) =
    rw (split-append sep p (join sep (q ∷ ps)) h, split-join sep q ps hs)

pub split_once-Lacks : (sep : ℕ) (p : Text) → Lacks sep p → split_once sep p ≡ (p, none)
unfolding split_once
split_once-Lacks sep [] h = refl
split_once-Lacks sep (c ∷ p) (hc, hp) = rw (split_once-Lacks sep p hp) (ground arith)

pub split_once-append :
    (sep : ℕ) (p rest : Text) → Lacks sep p → split_once sep (p ++ sep ∷ rest) ≡ (p, some rest)
unfolding split_once
split_once-append sep [] rest h = ground arith
split_once-append sep (c ∷ p) rest (hc, hp) = rw (split_once-append sep p rest hp) (ground arith)

abbrev pub HasNoSpace : Text → Type 0
HasNoSpace = All (λ c. is_space c ≡ false)

rstrip_lem : (s : Text) → HasNoSpace s → rstrip s ≡ s
unfolding rstrip put_unless_blank
rstrip_lem [] h = refl
rstrip_lem (c ∷ []) (hc, _) = rw hc
rstrip_lem (c ∷ d ∷ s) (hc, hs) = rw (rstrip_lem (d ∷ s) hs)

-- A text with no space is left as it is.
pub strip_lem : (s : Text) → HasNoSpace s → strip s ≡ s
unfolding strip lstrip
strip_lem [] h = unfold rstrip in refl
strip_lem (c ∷ s) (hc, hs) = rw hc (rstrip_lem (c ∷ s) (hc, hs))

pub is_digits_lem : (s : Text) → s ≢ [] → All IsDigit s → is_digits s ≡ true
unfolding is_digits
is_digits_lem [] ne h = absurd (ne refl)
is_digits_lem (c ∷ s) ne h = go (c ∷ s) h
  where
    go : (t : Text) → All IsDigit t → all is_digit t ≡ true
    go [] h = refl
    go (d ∷ t) (hd, ht) = ground (arith, go t ht)
