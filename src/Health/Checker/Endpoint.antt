-- ===== src/Health/Checker/Endpoint.antt =====
-- An endpoint that is written as a host and a port is read as these.
use dockfleet.Prelude.{
  ℕ, zero, suc, ◌+◌, ◌*◌, ◌-◌, ◌/◌, ◌%◌, ◌<◌, String, cat, Bool, true, false, List, [], ◌∷◌, ◌++◌,
  Option, none, some, if◌then◌else◌, ltb, codes, codes-cat, digit, digits, decimal, lstrip, rstrip,
  strip, is_space, reverse, lower, same_codes, ◌≡◌, ◌∙◌, refl, sym, ap, arith, All, All-append,
  Bool-cases, inl, inr,
}
use mathlib.Core.Path.{subst}
use mathlib.Core.List.{reverse-append, reverse-reverse}
use dockfleet.Health.Checker.{
  Signed, decimal_digit, grouped, grouped_value, unsigned, signed, parse_int, rsplit, with_port,
  split_host_port, Reach, check_tcp, check_by_type, check_endpoint, run_single_check,
}

codes-if : (b : Bool) (s t : String) → codes (if b then s else t) ≡ (if b then codes s else codes t)
codes-if true s t = refl
codes-if false s t = refl

codes-digit : (n : ℕ) → n < 10 → codes (digit n) ≡ (b'0' + n) ∷ []
unfolding digit
codes-digit n h = simp (codes-if) (ground arith)

-- `decimal_digit` of every code point
abbrev Digits : List ℕ → Type 0
Digits = All (λ c. decimal_digit c ≡ true)

grouped-append :
    (b : Bool) (s : List ℕ) (c : ℕ)
    → Digits s
    → decimal_digit c ≡ true
    → grouped b (s ++ c ∷ []) ≡ true
unfolding grouped
grouped-append b [] c h k = rw k refl
grouped-append b (d ∷ s) c h k = rw h.0 (grouped-append true s c h.1 k)

value-append :
    (acc : ℕ) (s : List ℕ) (c : ℕ)
    → decimal_digit c ≡ true
    → grouped_value acc (s ++ c ∷ []) ≡ grouped_value acc s * 10 + (c - b'0')
unfolding grouped_value
value-append acc [] c k = rw k refl
value-append acc (d ∷ s) c k =
    value-append (if decimal_digit d then acc * 10 + (d - b'0') else acc) s c k

-- The code points of a written number: digits, the last of which stands alone.
record Writes (n : ℕ) (s : List ℕ) : Type 0 where
  front : List ℕ
  last : ℕ
  parts : s ≡ front ++ last ∷ []
  front_digits : Digits front
  last_digit : decimal_digit last ≡ true
  value : grouped_value 0 front * 10 + (last - b'0') ≡ n

digit_is_digit : (n : ℕ) → n < 10 → decimal_digit (b'0' + n) ≡ true
unfolding decimal_digit
digit_is_digit n h = ground arith

Writes-Digits : {n : ℕ} {s : List ℕ} → Writes n s → Digits s
Writes-Digits w =
    subst Digits (sym w.parts)
      (All-append _ w.front (w.last ∷ []) w.front_digits (w.last_digit, tt))

Writes-value : {n : ℕ} {s : List ℕ} → Writes n s → grouped_value 0 s ≡ n
Writes-value w = ap (grouped_value 0) w.parts ∙ value-append 0 w.front w.last w.last_digit ∙ w.value

digits-Writes : (fuel n : ℕ) → n < fuel → Writes n (codes (digits fuel n))
unfolding digits
digits-Writes zero n h = elim h [ ]
digits-Writes (suc fuel) n h = elim (Bool-cases (ltb n 10)) [
  | inl small ↦ rw small record {
    front = [];
    last = b'0' + n;
    parts = codes-digit n (ground arith);
    front_digits = tt;
    last_digit = digit_is_digit n (ground arith);
    value = unfold grouped_value in omega arith;
  }
  | inr large ↦
      let more = digits-Writes fuel (n / 10) (ground arith) in
      rw large record {
        front = codes (digits fuel (n / 10));
        last = b'0' + n % 10;
        parts =
            codes-cat (digits fuel (n / 10)) (digit (n % 10))
            ∙ ap (◌++◌ (codes (digits fuel (n / 10)))) (codes-digit (n % 10) (omega arith));
        front_digits = Writes-Digits more;
        last_digit = digit_is_digit (n % 10) (omega arith);
        value = omega (arith, Writes-value more);
      }
]

decimal-Writes : (n : ℕ) → Writes n (codes (decimal n))
unfolding decimal
decimal-Writes n = digits-Writes (suc n) n (omega arith)

digit_no_space : (c : ℕ) → decimal_digit c ≡ true → is_space c ≡ false
unfolding decimal_digit is_space
digit_no_space c h = ground arith

lstrip_digit : (c : ℕ) (s : List ℕ) → decimal_digit c ≡ true → lstrip (c ∷ s) ≡ c ∷ s
unfolding lstrip
lstrip_digit c s h = rw (digit_no_space c h) refl

lstrip-Digits : (s : List ℕ) → Digits s → lstrip s ≡ s
lstrip-Digits [] h = unfold lstrip in refl
lstrip-Digits (c ∷ s) h = lstrip_digit c s h.0

strip_written : (n : ℕ) (s : List ℕ) → Writes n s → strip s ≡ s
unfolding strip rstrip
strip_written n s w =
    let backwards : reverse s ≡ w.last ∷ reverse w.front =
      ap reverse w.parts ∙ reverse-append w.front (w.last ∷ []) in
    ap rstrip (lstrip-Digits s (Writes-Digits w))
    ∙ ap (λ r. reverse (lstrip r)) backwards
    ∙ ap reverse (lstrip_digit w.last (reverse w.front) w.last_digit ∙ sym backwards)
    ∙ reverse-reverse s

signed-Digits : (s : List ℕ) → Digits s → grouped false s ≡ true → signed s ≡ unsigned false s
unfolding signed decimal_digit
signed-Digits [] h g = unfold grouped in cc
signed-Digits (c ∷ s) h g = ground (arith, h.0)

parse_written :
    (n : ℕ) (s : List ℕ) → Writes n s → parse_int s ≡ some (record { negative = false; size = n })
unfolding parse_int unsigned
parse_written n s w =
    let grouping : grouped false s ≡ true =
      ap (grouped false) w.parts
      ∙ grouped-append false w.front w.last w.front_digits w.last_digit in
    ap signed (strip_written n s w)
    ∙ signed-Digits s (Writes-Digits w) grouping
    ∙ rw (grouping, Writes-value w) refl

rsplit-Digits : (s : List ℕ) → Digits s → rsplit b':' s ≡ none
unfolding rsplit decimal_digit
rsplit-Digits [] h = refl
rsplit-Digits (c ∷ s) h = rw (rsplit-Digits s h.1) (ground (arith, h.0))

rsplit_last : (host s : List ℕ) → Digits s → rsplit b':' (host ++ b':' ∷ s) ≡ some (host, s)
unfolding rsplit
rsplit_last [] s h = rw (rsplit-Digits s h) refl
rsplit_last (c ∷ host) s h = rw (rsplit_last host s h) refl

abbrev pub port_of : ℕ → Signed
port_of n = record { negative = false; size = n }

split_printed :
    (host : List ℕ) (port : ℕ)
    → split_host_port (host ++ b':' ∷ codes (decimal port)) ≡ some (host, port_of port)
unfolding split_host_port
split_printed host port =
    let w = decimal-Writes port in
    rw (rsplit_last host (codes (decimal port)) (Writes-Digits w), split_host_port)
      (ap (with_port host) (parse_written port (codes (decimal port)) w))

-- A TCP check whose endpoint is written as a host, a colon and a port connects to that host and that
-- port, and passes as the connection does: for any host, also one that has colons itself, any port, and
-- the type tcp in small and capital letters.
pub tcp_check_connects :
    (reach : Reach) (name type : String) (host : String) (port : ℕ) (interval : Option ℕ)
    → lower (codes type) ≡ codes "tcp"
    → run_single_check reach name (record {
      type = type;
      endpoint = some (cat host (cat ":" (decimal port)));
      interval = interval;
    })
      ≡ check_tcp reach (codes host) (port_of port)
unfolding run_single_check check_by_type same_codes
tcp_check_connects reach name type host port interval is_tcp =
    let written : codes (cat host (cat ":" (decimal port)))
        ≡ codes host ++ b':' ∷ codes (decimal port) =
      codes-cat host (cat ":" (decimal port))
      ∙ ap (◌++◌ (codes host)) (codes-cat ":" (decimal port)) in
    rw (is_tcp, run_single_check)
      (ap (λ e. check_endpoint reach (split_host_port e)) written
        ∙ ap (check_endpoint reach) (split_printed (codes host) port))
