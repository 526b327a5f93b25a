-- ===== src/Health/Logs/Csv.antt =====
-- A reader of RFC 4180, and what it makes of a row of the download. A record ends with a line feed;
-- outside of quotes a carriage return is dropped.
use dockfleet.Prelude.{
  ℕ, ◌≡◌, refl, sym, ap, ◌∙◌, false, List, [], ◌∷◌, ◌++◌, map, eqb, if◌then◌else◌, arith, codes,
  Bool-cases, inl, inr,
}
use mathlib.Core.List.{append-nil, append_assoc}
use dockfleet.Health.Logs.Export.{needs_quotes, double_quotes, csv_field, csv_header}

-- Where the reader stands: before a field, in a bare field, in quotes, behind a quote in quotes.
pub data Mode : Type 0 where
  start bare quoted closing : Mode

pub record Reader : Type 0 where
  pub mode : Mode
  pub field : List ℕ
  pub fields : List (List ℕ)
  pub rows : List (List (List ℕ))

abbrev pub before_field : List (List ℕ) → List (List (List ℕ)) → Reader
before_field fields rows = record { mode = start; field = []; fields = fields; rows = rows }

-- A character outside of quotes.
unfoldable pub plain : ℕ → Reader → Reader
plain c r =
    if eqb c b','
    then before_field (r.fields ++ r.field ∷ []) r.rows
    else if eqb c b'\n'
    then before_field [] (r.rows ++ (r.fields ++ r.field ∷ []) ∷ [])
    else if eqb c b'\r'
    then r
    else record r { mode = bare; field = r.field ++ c ∷ [] }

abbrev in_mode : Mode → ℕ → Reader → Reader
unfolding plain
in_mode start c r = if eqb c b'"' then record r { mode = quoted } else plain c r
in_mode bare c r = plain c r
in_mode quoted c r =
    if eqb c b'"' then record r { mode = closing } else record r { field = r.field ++ c ∷ [] }
in_mode closing c r =
    if eqb c b'"' then record r { mode = quoted; field = r.field ++ c ∷ [] } else plain c r

unfoldable pub step : ℕ → Reader → Reader
unfolding in_mode
step c r = in_mode r.mode c r

unfoldable pub scan : List ℕ → Reader → Reader
unfolding step
scan [] r = r
scan (c ∷ s) r = scan s (step c r)

-- The records of a text; what stands behind the last line feed is not one.
unfoldable pub read_csv : List ℕ → List (List (List ℕ))
unfolding scan
read_csv s = (scan s (before_field [] [])).rows

pub scan-append : (s t : List ℕ) (r : Reader) → scan (s ++ t) r ≡ scan t (scan s r)
unfolding scan
scan-append [] t r = refl
scan-append (c ∷ s) t r = scan-append s t (step c r)

module _ (fields : List (List ℕ)) (rows : List (List (List ℕ))) where
  abbrev pub at : Mode → List ℕ → Reader
  at mode field = record { mode = mode; field = field; fields = fields; rows = rows }

  step-bare :
      (c : ℕ) (t f : List ℕ)
      → needs_quotes (c ∷ t) ≡ false
      → step c (at bare f) ≡ at bare (f ++ c ∷ [])
  unfolding step in_mode plain needs_quotes
  step-bare c t f h = ground arith

  step-start :
      (c : ℕ) (t : List ℕ) → needs_quotes (c ∷ t) ≡ false → step c (at start []) ≡ at bare (c ∷ [])
  unfolding step in_mode plain needs_quotes
  step-start c t h = ground arith

  tail_bare : (c : ℕ) (t : List ℕ) → needs_quotes (c ∷ t) ≡ false → needs_quotes t ≡ false
  unfolding needs_quotes
  tail_bare c t h = ground arith

  scan-bare : (t f : List ℕ) → needs_quotes t ≡ false → scan t (at bare f) ≡ at bare (f ++ t)
  unfolding scan
  scan-bare [] f h = ap (at bare) (sym (append-nil f))
  scan-bare (c ∷ t) f h =
      ap (scan t) (step-bare c t f h)
      ∙ scan-bare t (f ++ c ∷ []) (tail_bare c t h)
      ∙ ap (at bare) (append_assoc f (c ∷ []) t)

  scan-one_quoted :
      (c : ℕ) (t f : List ℕ)
      → scan (if eqb c b'"' then b'"' ∷ b'"' ∷ t else c ∷ t) (at quoted f)
        ≡ scan t (at quoted (f ++ c ∷ []))
  unfolding scan step in_mode
  scan-one_quoted c t f = ground arith

  scan-quoted : (t f : List ℕ) → scan (double_quotes t) (at quoted f) ≡ at quoted (f ++ t)
  unfolding scan double_quotes
  scan-quoted [] f = ap (at quoted) (sym (append-nil f))
  scan-quoted (c ∷ t) f =
      scan-one_quoted c (double_quotes t) f
      ∙ scan-quoted t (f ++ c ∷ [])
      ∙ ap (at quoted) (append_assoc f (c ∷ []) t)

  -- A field as the reader has it when it comes to what ends the field.
  abbrev pub mode_of : List ℕ → Mode
  unfolding needs_quotes
  mode_of [] = start
  mode_of (c ∷ t) = if needs_quotes (c ∷ t) then closing else bare

  pub scan-csv_field :
      (t : List ℕ) → scan (csv_field t) (before_field fields rows) ≡ at (mode_of t) t
  unfolding csv_field scan mode_of needs_quotes
  scan-csv_field [] = refl
  scan-csv_field (c ∷ t) = elim (Bool-cases (needs_quotes (c ∷ t))) [
    | inl quotes ↦
        rw (quotes, csv_field, mode_of)
          (scan-append (double_quotes (c ∷ t)) (b'"' ∷ []) (at quoted [])
            ∙ ap (scan (b'"' ∷ [])) (scan-quoted (c ∷ t) []))
    | inr simple ↦
        rw (simple, csv_field, mode_of)
          (ap (scan t) (step-start c t simple) ∙ scan-bare t (c ∷ []) (tail_bare c t simple))
  ]

  pub comma_after :
      (t : List ℕ) → step b',' (at (mode_of t) t) ≡ before_field (fields ++ t ∷ []) rows
  unfolding step in_mode plain mode_of
  comma_after [] = refl
  comma_after (c ∷ t) = ground arith

  pub newline_after :
      (t : List ℕ)
      → step b'\n' (at (mode_of t) t) ≡ before_field [] (rows ++ (fields ++ t ∷ []) ∷ [])
  unfolding step in_mode plain mode_of
  newline_after [] = refl
  newline_after (c ∷ t) = ground arith

-- The header of the download, as the reader has it.
abbrev pub header_columns : List (List ℕ)
header_columns = map codes ("service_name" ∷ "timestamp" ∷ "level" ∷ "message" ∷ "source" ∷ [])

pub scan-header : scan csv_header (before_field [] []) ≡ before_field [] (header_columns ∷ [])
unfolding scan step in_mode plain csv_header
scan-header = refl
