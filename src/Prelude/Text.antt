-- ===== src/Prelude/Text.antt =====
-- Text as the list of its code points, where the program looks inside it. `lower` is `str.lower`
-- on ASCII; other characters are kept.
use Prim.Native.Nat.{ℕ, zero, suc, ◌+◌, ◌/◌, ◌%◌}
use Prim.Native.Char.{code}
use Prim.Native.String.{String, ◌++◌ as cat}
use Prim.Native.String.append as append
use mathlib.Core.Path.{◌≡◌, ◌∙◌, ap}
use text.Mathlib.Text.{◌==◌}
use mathlib.Core.Bool.{Bool, true, false, ◌&&◌, ◌||◌}
use mathlib.Core.List.{List, [], ◌∷◌, ◌++◌, map, reverse}
use dockfleet.Prelude.Tests.{leb, ltb, eqb, if◌then◌else◌}

abbrev pub codes : String → List ℕ
codes String.[] = []
codes (String.◌∷◌ c s) = code c ∷ codes s

pub codes-cat : (s t : String) → codes (cat s t) ≡ codes s ++ codes t
codes-cat String.[] t = ap codes (append.nil t)
codes-cat (String.◌∷◌ c s) t = ap codes (append.cons c s t) ∙ ap (◌∷◌ (code c)) (codes-cat s t)

unfoldable pub same_codes : List ℕ → List ℕ → Bool
same_codes [] [] = true
same_codes (a ∷ s) (b ∷ t) = eqb a b && same_codes s t
same_codes _ _ = false

unfoldable pub is_prefix : List ℕ → List ℕ → Bool
is_prefix [] s = true
is_prefix (a ∷ t) [] = false
is_prefix (a ∷ t) (b ∷ s) = eqb a b && is_prefix t s

-- `part in text`
unfoldable pub contains : List ℕ → List ℕ → Bool
unfolding is_prefix
contains part [] = is_prefix part []
contains part (c ∷ s) = is_prefix part (c ∷ s) || contains part s

unfoldable pub lower : List ℕ → List ℕ
lower = map (λ c. if leb b'A' c && leb c b'Z' then c + 32 else c)

-- What `str.strip` removes: the ASCII white space.
unfoldable pub is_space : ℕ → Bool
is_space c = eqb c 32 || (leb 9 c && leb c 13) || (leb 28 c && leb c 31)

unfoldable pub lstrip : List ℕ → List ℕ
unfolding is_space
lstrip [] = []
lstrip (c ∷ s) = let rest = lstrip s in if is_space c then rest else c ∷ s

unfoldable pub rstrip : List ℕ → List ℕ
unfolding lstrip
rstrip s = reverse (lstrip (reverse s))

unfoldable pub strip : List ℕ → List ℕ
unfolding rstrip
strip s = rstrip (lstrip s)

-- `str.strip` where the result is a text again.
unfoldable pub lstrip_text : String → String
unfolding is_space
lstrip_text String.[] = ""
lstrip_text (String.◌∷◌ c s) =
    let rest = lstrip_text s in if is_space (code c) then rest else String.◌∷◌ c s

unfoldable pub rstrip_text : String → String
unfolding is_space
rstrip_text String.[] = ""
rstrip_text (String.◌∷◌ c s) =
    let rest = rstrip_text s in if rest == "" && is_space (code c) then "" else String.◌∷◌ c rest

unfoldable pub strip_text : String → String
unfolding lstrip_text rstrip_text
strip_text s = rstrip_text (lstrip_text s)

unfoldable pub digit : ℕ → String
digit n =
    if eqb n 0
    then "0"
    else if eqb n 1
    then "1"
    else if eqb n 2
    then "2"
    else if eqb n 3
    then "3"
    else if eqb n 4
    then "4"
    else if eqb n 5
    then "5"
    else if eqb n 6
    then "6"
    else if eqb n 7
    then "7"
    else if eqb n 8
    then "8"
    else "9"

unfoldable pub digits : ℕ → ℕ → String
unfolding digit
digits zero n = ""
digits (suc fuel) n =
    let more = digits fuel (n / 10) in if ltb n 10 then digit n else cat more (digit (n % 10))

-- `str(n)` of a natural number, which has at most `n + 1` digits
unfoldable pub decimal : ℕ → String
unfolding digits
decimal n = digits (suc n) n
