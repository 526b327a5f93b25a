-- ===== src/Cli/Config/PortMapping/Agree.antt =====
-- The mappings that the configuration accepts, and the host ports that the orchestrator waits for.
use dockfleet.Prelude.{
  ℕ, String, Bool, true, false, ◌&&◌, ◌⊎◌, inl, inr, List, [], ◌∷◌, Option, none, some, codes,
  strip, eqb, if◌then◌else◌, ◌≡◌, ◌≢◌, ◌≤◌, ◌∙◌, refl, sym, ap, arith, Bool-cases,
}
use dockfleet.Core.Ports.{
  Binding, split_on, to_int, all_digits, has, head_part, binding_of, host_port, any_host,
}
use dockfleet.Cli.Config.PortMapping.{
  PortRefusal, PortMapping, partition, is_protocol, valid_port, in_range, checked, by_parts,
  behind_bracket, bracketed, closing, parse_mapping, parse_port_mapping,
}

-- The binding of a mapping.
abbrev pub address : Option (List ℕ) → List ℕ
address none = any_host
address (some ip) = ip

abbrev pub binding : PortMapping → Binding
binding m = (address m.0, m.1)

split_on-parts :
    (sep : ℕ) (s : List ℕ)
    → (part : List ℕ) × (parts : List (List ℕ)) × (split_on sep s ≡ part ∷ parts)
unfolding split_on
split_on-parts sep [] = ([], [], refl)
split_on-parts sep (c ∷ s) = elim (Bool-cases (eqb c sep)) [
  | inl ends ↦
      let (part, parts, e) = split_on-parts sep s in
      ([], part ∷ parts, rw (e, split_on) (rw ends refl))
  | inr goes_on ↦
      let (part, parts, e) = split_on-parts sep s in
      (c ∷ part, parts, rw (e, split_on) (rw goes_on refl))
]

head_part-first :
    (sep c : ℕ) (s : List ℕ)
    → head_part (split_on sep (c ∷ s)) ≡ (if eqb c sep then [] else c ∷ head_part (split_on sep s))
unfolding split_on
head_part-first sep c s = let (part, parts, e) = split_on-parts sep s in rw e (ground arith)

-- What stands before the first separator.
partition-split_on : (sep : ℕ) (s : List ℕ) → (partition sep s).0 ≡ head_part (split_on sep s)
unfolding partition split_on
partition-split_on sep [] = refl
partition-split_on sep (c ∷ s) = ground (arith, partition-split_on sep s, head_part-first sep c s)

-- A number holds no point.
all_digits-has : (s : List ℕ) → all_digits s ≡ true → has b'.' s ≡ false
unfolding all_digits has
all_digits-has [] h = refl
all_digits-has (c ∷ s) h = ground (arith, all_digits-has s)

to_int-has : (s : List ℕ) (n : ℕ) → to_int s ≡ some n → has b'.' s ≡ false
unfolding to_int has
to_int-has [] n h = refl
to_int-has (c ∷ s) n h = elim (Bool-cases (all_digits (c ∷ s))) [
  | inl number ↦ all_digits-has (c ∷ s) number
  | inr other ↦ ground (arith, rw (other, to_int) at h)
]

accepted : PortMapping → PortRefusal ⊎ PortMapping
accepted m = inr m

inr_injective : (m n : PortMapping) → accepted m ≡ accepted n → m ≡ n
unfolding accepted
inr_injective m n h = cc

in_range-both :
    (ip : Option (List ℕ)) (host container : Option ℕ) (m : PortMapping)
    → in_range ip host container ≡ inr m
    → (host ≡ some m.1)
      × (container ≡ some m.2)
      × (ip ≡ m.0)
      × (valid_port m.1 && valid_port m.2 ≡ true)
unfolding in_range accepted
in_range-both ip none container m h = ground arith
in_range-both ip (some a) none m h = ground arith
in_range-both ip (some a) (some b) m h = elim (Bool-cases (valid_port a && valid_port b)) [
  | inl valid ↦
      let same = inr_injective (ip, a, b) m (rw valid at h) in
      (ap (λ n. some n.1) same, ap (λ n. some n.2) same, ap (λ n. n.0) same, rw (sym same) valid)
  | inr wrong ↦ ground (arith, rw wrong at h)
]

checked-both :
    (ip : Option (List ℕ)) (host container : List ℕ) (m : PortMapping)
    → checked ip host container ≡ inr m
    → (to_int host ≡ some m.1)
      × (to_int container ≡ some m.2)
      × (ip ≡ m.0)
      × (valid_port m.1 && valid_port m.2 ≡ true)
      × (ip ≢ some [])
unfolding checked
checked-both none host container m h =
    let (a, b, c, d) = in_range-both none (to_int host) (to_int container) m h in
    (a, b, c, d, λ e. cc)
checked-both (some []) host container m h = ground arith
checked-both (some (c ∷ s)) host container m h =
    let (a, b, e, d) = in_range-both (some (c ∷ s)) (to_int host) (to_int container) m h in
    (a, b, e, d, λ f. cc)

agree_parts :
    (parts : List (List ℕ)) (m : PortMapping)
    → by_parts parts ≡ inr m
    → binding_of parts ≡ binding m ∷ []
unfolding by_parts binding_of checked to_int
agree_parts (host ∷ container ∷ []) m h =
    let (a, b, same, valid, filled) = checked-both none host container m h in
    rw (to_int-has host m.1 a, a, binding_of) (ap (λ ip. (address ip, m.1) ∷ []) same)
agree_parts ([] ∷ host ∷ container ∷ []) m h = ground arith
agree_parts ((c ∷ ip) ∷ [] ∷ container ∷ []) m h =
    ground (arith, (checked-both (some (c ∷ ip)) [] container m h).0)
agree_parts ((c ∷ ip) ∷ (d ∷ host) ∷ container ∷ []) m h =
    let (a, b, same, valid, filled) = checked-both (some (c ∷ ip)) (d ∷ host) container m h in
    rw (a, binding_of) (ap (λ ip. (address ip, m.1) ∷ []) same)
agree_parts _ m h = ground arith

valid_parts :
    (parts : List (List ℕ)) (m : PortMapping)
    → by_parts parts ≡ inr m
    → valid_port m.1 && valid_port m.2 ≡ true
unfolding by_parts
valid_parts (host ∷ container ∷ []) m h = (checked-both none host container m h).3
valid_parts (ip ∷ host ∷ container ∷ []) m h = (checked-both (some ip) host container m h).3
valid_parts _ m h = ground arith

-- The mapping has an address in brackets.
abbrev pub starts_bracket : List ℕ → Bool
starts_bracket [] = false
starts_bracket (c ∷ s) = eqb c b'['

partition-starts :
    (t : List ℕ) → starts_bracket t ≡ false → starts_bracket (partition b'/' t).0 ≡ false
unfolding partition
partition-starts [] h = refl
partition-starts (c ∷ s) h = ground (arith, h)

parse_mapping-plain :
    (s : List ℕ) → starts_bracket s ≡ false → parse_mapping s ≡ by_parts (split_on b':' s)
unfolding parse_mapping
parse_mapping-plain [] h = refl
parse_mapping-plain (c ∷ s) h = rw h refl

parsed_mapping :
    (t : List ℕ) (m : PortMapping)
    → parse_port_mapping t ≡ inr m
    → parse_mapping (partition b'/' t).0 ≡ inr m
unfolding parse_port_mapping
parsed_mapping t m h = ground arith

valid_behind :
    (ip rest : List ℕ) (m : PortMapping)
    → behind_bracket ip rest ≡ inr m
    → valid_port m.1 && valid_port m.2 ≡ true
unfolding behind_bracket
valid_behind ip [] m h = ground arith
valid_behind ip (c ∷ s) m h = elim (Bool-cases (eqb c b':')) [
  | inl colon ↦
      (checked-both (some ip) (partition b':' s).0 (partition b':' s).1 m (rw colon at h)).3
  | inr other ↦ ground (arith, rw other at h)
]

valid_bracketed :
    (o : Option (List ℕ × List ℕ)) (m : PortMapping)
    → bracketed o ≡ inr m
    → valid_port m.1 && valid_port m.2 ≡ true
unfolding bracketed
valid_bracketed none m h = ground arith
valid_bracketed (some (ip, rest)) m h = valid_behind ip rest m h

valid_mapping :
    (s : List ℕ) (m : PortMapping)
    → parse_mapping s ≡ inr m
    → valid_port m.1 && valid_port m.2 ≡ true
unfolding parse_mapping
valid_mapping [] m h = valid_parts (split_on b':' []) m h
valid_mapping (c ∷ s) m h = elim (Bool-cases (eqb c b'[')) [
  | inl bracket ↦ valid_bracketed (closing s) m (rw bracket at h)
  | inr plain ↦ valid_parts (split_on b':' (c ∷ s)) m (rw plain at h)
]

waits :
    (t : List ℕ) (m : PortMapping)
    → starts_bracket t ≡ false
    → parse_port_mapping t ≡ inr m
    → elim t [ [] ↦ [] | c ∷ s ↦ binding_of (split_on b':' (head_part (split_on b'/' (c ∷ s)))) ]
      ≡ binding m ∷ []
unfolding parse_port_mapping partition is_protocol parse_mapping by_parts split_on
waits [] m plain h = ground arith
waits (c ∷ s) m plain h =
    let head = partition-split_on b'/' (c ∷ s) in
    let mapping = head_part (split_on b'/' (c ∷ s)) in
    agree_parts (split_on b':' mapping) m (
      sym (
        parse_mapping-plain mapping (ap starts_bracket (sym head) ∙ partition-starts (c ∷ s) plain))
      ∙ ap parse_mapping (sym head)
      ∙ parsed_mapping (c ∷ s) m h)

-- Both ports of a mapping that is accepted, whatever its form, lie between 1 and 65535.
pub ports_in_range :
    (port : List ℕ) (m : PortMapping)
    → parse_port_mapping port ≡ inr m
    → (1 ≤ m.1) × (m.1 ≤ 65535) × (1 ≤ m.2) × (m.2 ≤ 65535)
unfolding valid_port
ports_in_range port m h =
    let valid = valid_mapping (partition b'/' port).0 m (parsed_mapping port m h) in
    (ground (arith, valid), ground (arith, valid), ground (arith, valid), ground (arith, valid))

-- For a mapping that is accepted, has no white space at its ends and no address in brackets: the one
-- binding that the orchestrator waits for is its host port, at its address or else at any.
pub ports_agree :
    (port : String) (m : PortMapping)
    → strip (codes port) ≡ codes port
    → starts_bracket (codes port) ≡ false
    → parse_port_mapping (codes port) ≡ inr m
    → host_port port ≡ binding m ∷ []
unfolding host_port
ports_agree port m trimmed plain h = rw (trimmed, host_port) (waits (codes port) m plain h)
