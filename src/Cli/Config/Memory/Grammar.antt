-- ===== src/Cli/Config/Memory/Grammar.antt =====
-- The regular expression of memory limits against the texts that it stands for.
use dockfleet.Prelude.{
  ℕ, String, Bool, true, false, not, ◌||◌, List, [], ◌∷◌, ◌++◌, some, eqb, eqb_iff, codes,
  same_codes, lower, strip_text, All, ◌≡◌, ◌∙◌, ◌↔◌, inl, inr, refl, sym, ap, arith, Bool-cases,
  Option-cases,
}
use mathlib.Core.Path.{subst}
use dockfleet.Core.Exec.{ok}
use dockfleet.Cli.Config.Memory.{
  is_number, behind_numbers, some_numbers, units, is_one_of, ends_in_unit, unit_behind,
  with_decimals, from_point, matches_memory, validate_memory,
}

-- One digit at least, and digits only.
pub record Numbers (s : List ℕ) : Type 0 where
  pub head : ℕ
  pub tail : List ℕ
  pub parts : s ≡ head ∷ tail
  pub digits : All (λ c. is_number c ≡ true) s

-- A number: digits, digits with decimals, or decimals alone; and a unit or none.
pub data Limit (s : List ℕ) : Type 0 where
  whole : (n u : List ℕ) → Numbers n → ends_in_unit u ≡ true → s ≡ n ++ u → Limit s
  decimals :
      (n d u : List ℕ)
      → Numbers n
      → Numbers d
      → ends_in_unit u ≡ true
      → s ≡ n ++ (b'.' ∷ (d ++ u))
      → Limit s
  point : (d u : List ℕ) → Numbers d → ends_in_unit u ≡ true → s ≡ b'.' ∷ (d ++ u) → Limit s

-- A text that begins with neither a digit nor a point.
abbrev is_start : ℕ → Bool
is_start c = not (is_number c || eqb c b'.')

abbrev Apart : List ℕ → Type 0
Apart [] = Unit
Apart (c ∷ s) = is_start c ≡ true

same_codes-eq : (u s : List ℕ) → same_codes u s ≡ true → u ≡ s
unfolding same_codes
same_codes-eq [] [] h = refl
same_codes-eq (a ∷ u) (b ∷ s) h = ground (arith, same_codes-eq u s)
same_codes-eq [] (b ∷ s) h = cc
same_codes-eq (a ∷ u) [] h = cc

one_of-All :
    (P : List ℕ → Type 0) (us : List (List ℕ)) (s : List ℕ) → All P us → is_one_of us s ≡ true → P s
unfolding is_one_of
one_of-All P [] s h e = cc
one_of-All P (u ∷ us) s h e = elim (Bool-cases (same_codes u s)) [
  | inl same ↦ subst P (same_codes-eq u s same) h.0
  | inr other ↦ one_of-All P us s h.1 (ground (arith, other, e))
]

unit-Apart : (u : List ℕ) → ends_in_unit u ≡ true → Apart u
unfolding ends_in_unit units is_number
unit-Apart [] h = tt
unit-Apart (c ∷ s) h = one_of-All Apart units (c ∷ s) (search tt) h

-- A text that begins with no digit.
abbrev Stops : List ℕ → Type 0
Stops [] = Unit
Stops (c ∷ s) = is_number c ≡ false

Apart-Stops : (u : List ℕ) → Apart u → Stops u
Apart-Stops [] h = tt
Apart-Stops (c ∷ s) h = ground arith

behind-append :
    (n r : List ℕ) → All (λ c. is_number c ≡ true) n → Stops r → behind_numbers (n ++ r) ≡ r
unfolding behind_numbers
behind-append [] [] h stops = refl
behind-append [] (c ∷ r) h stops = rw stops refl
behind-append (c ∷ n) r h stops = rw h.0 (behind-append n r h.1 stops)

Numbers-append : (n r : List ℕ) → Numbers n → Stops r → some_numbers (n ++ r) ≡ some r
unfolding some_numbers
Numbers-append [] r h stops = absurd (let e = h.parts in cc)
Numbers-append (c ∷ n) r h stops = rw h.digits.0 (ap some (behind-append n r h.digits.1 stops))

-- The digits before the rest.
record Front (s r : List ℕ) : Type 0 where
  n : List ℕ
  digits : All (λ c. is_number c ≡ true) n
  parts : s ≡ n ++ r

front : (s : List ℕ) → Front s (behind_numbers s)
unfolding behind_numbers
front [] = record { n = []; digits = tt; parts = refl }
front (c ∷ s) = elim (Bool-cases (is_number c)) [
  | inl digit ↦
      let f = front s in
      rw digit record { n = c ∷ f.n; digits = (digit, f.digits); parts = ap (◌∷◌ c) f.parts }
  | inr other ↦ rw other record { n = []; digits = tt; parts = refl }
]

-- What `\d+` has matched.
record Matched (s r : List ℕ) : Type 0 where
  n : List ℕ
  numbers : Numbers n
  parts : s ≡ n ++ r

matched : (s r : List ℕ) → some_numbers s ≡ some r → Matched s r
unfolding some_numbers
matched [] r h = cc
matched (c ∷ s) r h = elim (Bool-cases (is_number c)) [
  | inl digit ↦
      let f = front s in
      let e : behind_numbers s ≡ r = ground (arith, digit, h) in
      record {
        n = c ∷ f.n;
        numbers = record { head = c; tail = f.n; parts = refl; digits = (digit, f.digits) };
        parts = ap (◌∷◌ c) (f.parts ∙ ap (◌++◌ f.n) e);
      }
  | inr other ↦ absurd (ground (arith, other, h))
]

unit_sound :
    (s : List ℕ)
    → unit_behind (some_numbers s) ≡ true
    → (d u : List ℕ) × Numbers d × (ends_in_unit u ≡ true) × (s ≡ d ++ u)
unfolding unit_behind
unit_sound s h = elim (Option-cases (some_numbers s)) [
  | inl missing ↦ absurd (let k = rw missing at h in cc)
  | inr (u, found) ↦ let m = matched s u found in (m.n, u, m.numbers, rw found at h, m.parts)
]

Matched-Limit : (s r : List ℕ) → Matched s r → with_decimals r ≡ true → Limit s
unfolding with_decimals ends_in_unit
Matched-Limit s [] m h = whole m.n [] m.numbers refl m.parts
Matched-Limit s (c ∷ r) m h = elim (Bool-cases (eqb c b'.')) [
  | inl dot ↦
      let (d, u, numbers, unit, parts) = unit_sound r (rw dot at h) in
      decimals m.n d u m.numbers numbers unit
        (m.parts ∙ ap (◌++◌ m.n) (ap (λ k. k ∷ r) ((eqb_iff c b'.').0 dot) ∙ ap (◌∷◌ b'.') parts))
  | inr other ↦ whole m.n (c ∷ r) m.numbers (rw other at h) m.parts
]

point_sound : (s : List ℕ) → from_point s ≡ true → Limit s
unfolding from_point
point_sound [] h = cc
point_sound (c ∷ s) h = elim (Bool-cases (eqb c b'.')) [
  | inl dot ↦
      let (d, u, numbers, unit, parts) = unit_sound s (rw dot at h) in
      point d u numbers unit (ap (λ k. k ∷ s) ((eqb_iff c b'.').0 dot) ∙ ap (◌∷◌ b'.') parts)
  | inr other ↦ absurd (ground (arith, other, h))
]

matches_sound : (s : List ℕ) → matches_memory s ≡ true → Limit s
unfolding matches_memory
matches_sound s h = elim (Option-cases (some_numbers s)) [
  | inl missing ↦ point_sound s (rw (missing, matches_memory) at h)
  | inr (r, found) ↦ Matched-Limit s r (matched s r found) (rw (found, matches_memory) at h)
]

unit_complete :
    (d u : List ℕ) → Numbers d → ends_in_unit u ≡ true → unit_behind (some_numbers (d ++ u)) ≡ true
unfolding unit_behind
unit_complete d u h unit = rw (Numbers-append d u h (Apart-Stops u (unit-Apart u unit))) unit

with_unit : (u : List ℕ) → Apart u → ends_in_unit u ≡ true → with_decimals u ≡ true
unfolding with_decimals
with_unit [] h unit = refl
with_unit (c ∷ s) h unit = ground (arith, h, unit)

matches_complete : (s : List ℕ) → Limit s → matches_memory s ≡ true
unfolding matches_memory with_decimals from_point is_number
matches_complete s (whole n u h unit e) =
    let first = unit-Apart u unit in
    subst (λ t. matches_memory t ≡ true) (sym e)
      (rw (Numbers-append n u h (Apart-Stops u first), matches_memory) (with_unit u first unit))
matches_complete s (decimals n d u h k unit e) =
    subst (λ t. matches_memory t ≡ true) (sym e)
      (rw (Numbers-append n (b'.' ∷ (d ++ u)) h refl, matches_memory) (unit_complete d u k unit))
matches_complete s (point d u k unit e) =
    subst (λ t. matches_memory t ≡ true) (sym e) (unit_complete d u k unit)

-- A memory limit is accepted exactly if, without the white space at its ends and in small letters, it is
-- a number and a unit or none: the number is digits, digits with a point and digits, or a point and
-- digits. What is accepted is kept without that white space, with its letters as they were.
pub memory_iff :
    (value kept : String)
    → (validate_memory (some value) ≡ ok (some kept))
      ↔ (Limit (lower (codes (strip_text value))) × (strip_text value ≡ kept))
unfolding validate_memory
memory_iff value kept = (
  λ h. elim (Bool-cases (matches_memory (lower (codes (strip_text value))))) [
    | inl yes_it ↦ (matches_sound _ yes_it, let k = rw yes_it at h in cc)
    | inr no_match ↦ absurd (let k = rw no_match at h in ground (arith, k))
  ],
  λ h. rw (matches_complete _ h.0) (ap (λ t. ok (some t)) h.1),
)
