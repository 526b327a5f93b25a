-- ===== src/Health/Ingest/Held.antt =====
-- The lines that a poll has read, and those that it holds and has not committed.
use dockfleet.Prelude.{
  ℕ, String, ◌==◌, inl, inr, List, [], ◌∷◌, ◌++◌, map, Option, none, some, ◌≡◌, refl, arith, length,
  if◌then◌else◌, Bool-cases, rstrip_text,
}
use dockfleet.Health.Ingest.{Entry, Parsed, parse_line, or_else, Ingest}

abbrev pub entries : List Parsed → List Entry
entries = map (λ p. p.entry)

-- The time stamp of the last line that has one.
unfoldable pub last_raw : Option String → List Parsed → Option String
unfolding or_else
last_raw ts [] = ts
last_raw ts (p ∷ ps) = last_raw (or_else p.raw_ts ts) ps

pub last_raw-append :
    (ts : Option String) (ps qs : List Parsed)
    → last_raw ts (ps ++ qs) ≡ last_raw (last_raw ts ps) qs
unfolding last_raw
last_raw-append ts [] qs = refl
last_raw-append ts (p ∷ ps) qs = last_raw-append (or_else p.raw_ts ts) ps qs

pub or_else_same : (a : Option String) → or_else a a ≡ a
unfolding or_else
or_else_same none = refl
or_else_same (some t) = ground arith

or_else-again : (r a c : Option String) → or_else a c ≡ a → or_else (or_else r a) c ≡ or_else r a
unfolding or_else
or_else-again none a c h = h
or_else-again (some t) a c h = elim (Bool-cases (t == "")) [
  | inl blank ↦ rw blank h
  | inr shown ↦ rw (shown, or_else) (rw shown refl)
]

-- A commit sets the cursor to the last time stamp, even if that stood there before.
pub or_else-last_raw :
    (a c : Option String) (ps : List Parsed)
    → or_else a c ≡ a
    → or_else (last_raw a ps) c ≡ last_raw a ps
unfolding last_raw
or_else-last_raw a c [] h = h
or_else-last_raw a c (p ∷ ps) h =
    or_else-last_raw (or_else p.raw_ts a) c ps (or_else-again p.raw_ts a c h)

module _ (parse : String → Option ℕ) where
  -- The lines as the loop reads them, without the blank ones.
  unfoldable pub parsed : List (ℕ × String) → List Parsed
  unfolding parse_line rstrip_text
  parsed [] = []
  parsed ((now, line) ∷ lines) =
      let rest = parsed lines in
      let text = rstrip_text line in if text == "" then rest else parse_line parse now text ∷ rest

-- The lines `held` are added and not committed.
abbrev pub Holds : Ingest → List Parsed → Type 0
Holds s held =
    (s.pending ≡ entries held)
    × (s.last_ts ≡ last_raw s.cursor held)
    × (s.batch_count ≡ length held)
