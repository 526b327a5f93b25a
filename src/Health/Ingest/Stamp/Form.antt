-- ===== src/Health/Ingest/Stamp/Form.antt =====
-- The length of the time stamps that `fromisoformat` is given.
use dockfleet.Prelude.{
  ℕ, zero, suc, ◌+◌, ◌-◌, ◌≤◌, Bool, true, false, ◌⊎◌, inl, inr, List, [], ◌∷◌, ◌++◌, codes, Option,
  none, some, eqb, if◌then◌else◌, length, length-append, take, replicate, ◌≡◌, ◌∙◌, refl, sym, ap,
  arith, Bool-cases,
}
use mathlib.Core.Path.{subst}
use dockfleet.Health.Ingest.Stamp.{
  Place, fits, date_time, match_places, keep_head, span_digits, micros, zone, append_zone,
  with_fraction, behind_base, on_base, normal_form, with_t,
}

some_injective {ℓ} : {A : Type ℓ} (a b : A) → some a ≡ some b → a ≡ b
some_injective a b h = cc

length-replicate : (n c : ℕ) → length (replicate n c) ≡ n
length-replicate zero c = refl
length-replicate (suc n) c = ap suc (length-replicate n c)

length-take_le : (n : ℕ) (s : List ℕ) → length (take n s) ≤ n
length-take_le zero s = omega arith
length-take_le (suc n) [] = omega arith
length-take_le (suc n) (c ∷ s) = omega (arith, length-take_le n s)

length-micros : (digits : List ℕ) → length (micros digits) ≡ 6
unfolding micros
length-micros digits = omega (
  arith,
  length-append (take 6 digits) (replicate (6 - length (take 6 digits)) b'0'),
  length-replicate (6 - length (take 6 digits)) b'0',
  length-take_le 6 digits,
)

-- What a test lets through.
guarded : (b : Bool) (a z : List ℕ) → (if b then some a else none) ≡ some z → length z ≡ length a
guarded true a z h = ap length (sym (some_injective a z h))
guarded false a z h = ground arith

kept :
    (b : Bool) (d : ℕ) (o : Option (List ℕ × List ℕ)) (head rest : List ℕ)
    → (if b then keep_head d o else none) ≡ some (head, rest)
    → (tail : List ℕ) × (o ≡ some (tail, rest)) × (length head ≡ suc (length tail))
kept true d none head rest h = ground arith
kept false d o head rest h = ground arith
kept true d (some (tail, r)) head rest h =
    let same = some_injective (d ∷ tail, r) (head, rest) h in
    (tail, ap (λ p. some (tail, p.1)) same, ap (λ p. length p.0) (sym same))

length-match_places :
    (ps : List Place) (s head rest : List ℕ)
    → match_places ps s ≡ some (head, rest)
    → length head ≡ length ps
unfolding match_places
length-match_places [] s head rest h =
    ap (λ p. length p.0) (sym (some_injective ([], s) (head, rest) h))
length-match_places (p ∷ ps) [] head rest h = ground arith
length-match_places (p ∷ ps) (c ∷ s) head rest h =
    let (tail, e, longer) = kept (fits p c) (with_t c) (match_places ps s) head rest h in
    longer ∙ ap suc (length-match_places ps s tail rest e)

length-zone : (s z : List ℕ) → zone s ≡ some z → length z ≡ 6
unfolding zone
length-zone [] z h = ap length (sym (some_injective (codes "+00:00") z h))
length-zone (c ∷ []) z h = guarded _ (codes "+00:00") z h
length-zone (c ∷ a ∷ b ∷ d ∷ e ∷ []) z h = guarded _ (c ∷ a ∷ b ∷ b':' ∷ d ∷ e ∷ []) z h
length-zone (c ∷ a ∷ b ∷ d ∷ e ∷ f ∷ []) z h = guarded _ (c ∷ a ∷ b ∷ d ∷ e ∷ f ∷ []) z h
length-zone _ z h = ground arith

length-append_zone :
    (base : List ℕ) (tz : Option (List ℕ)) (text : List ℕ)
    → ((z : List ℕ) → tz ≡ some z → length z ≡ 6)
    → append_zone base tz ≡ some text
    → length text ≡ length base + 6
length-append_zone base none text six h = ground arith
length-append_zone base (some z) text six h =
    omega
      (arith, ap length (sym (some_injective (base ++ z) text h)), length-append base z, six z refl)

length-with_fraction :
    (base : List ℕ) (p : List ℕ × List ℕ) (text : List ℕ)
    → with_fraction base p ≡ some text
    → length text ≡ length base + 13
unfolding with_fraction
length-with_fraction base ([], rest) text h = ground arith
length-with_fraction base (d ∷ digits, rest) text h = omega (
  arith,
  length-append_zone (base ++ b'.' ∷ micros (d ∷ digits)) (zone rest) text (length-zone rest) h,
  length-append base (b'.' ∷ micros (d ∷ digits)),
  length-micros (d ∷ digits),
)

-- A text with the length of a base and a zone, or of these and a fraction.
abbrev pub HasForm : ℕ → List ℕ → Type 0
HasForm base text = (length text ≡ base + 6) ⊎ (length text ≡ base + 13)

behind_base-HasForm :
    (base rest text : List ℕ) → behind_base base rest ≡ some text → HasForm (length base) text
unfolding behind_base
behind_base-HasForm base [] text h = inl (length-append_zone base (zone []) text (length-zone []) h)
behind_base-HasForm base (c ∷ s) text h = elim (Bool-cases (eqb c b'.')) [
  | inl point ↦ inr (length-with_fraction base (span_digits s) text (rw point at h))
  | inr other ↦
      inl (length-append_zone base (zone (c ∷ s)) text (length-zone (c ∷ s)) (rw other at h))
]

on_base-HasForm :
    (o : Option (List ℕ × List ℕ)) (text : List ℕ)
    → ((head rest : List ℕ) → o ≡ some (head, rest) → length head ≡ 19)
    → on_base o ≡ some text
    → HasForm 19 text
unfolding on_base
on_base-HasForm none text known h = ground arith
on_base-HasForm (some (base, rest)) text known h =
    subst (λ n. HasForm n text) (known base rest refl) (behind_base-HasForm base rest text h)

-- A time stamp that matches the expression, whatever precision and zone docker gave it, reaches
-- `fromisoformat` with 25 characters, or with 32 where it has a fraction: its digits are six.
pub length-normal_form :
    (ts text : List ℕ) → normal_form ts ≡ some text → (length text ≡ 25) ⊎ (length text ≡ 32)
unfolding normal_form
length-normal_form ts text h =
    on_base-HasForm (match_places date_time ts) text
      (λ head rest. length-match_places date_time ts head rest) h
