-- ===== src/Cli/Config/Fields/Flags.antt =====
-- What an accepted environment comes to on the command line of docker.
use dockfleet.Prelude.{
  ℕ, String, cat, true, List, [], ◌∷◌, ◌++◌, some, Dict, codes, codes-cat, contains, is_prefix, ◌≡◌,
  ◌∙◌, refl, sym, ap, arith, Bool-cases, inl, inr,
}
use mathlib.Core.Path.{subst}
use dockfleet.Core.Exec.{Outcome, ok, raised}
use dockfleet.Core.Docker.{build_env_flags, env_items, each_flag}
use dockfleet.Cli.Config.{ServiceConfig, Environment, pairs, mapping}
use dockfleet.Cli.Config.Fields.{
  Value, null, text, scalar, compound, RawEnvironment, missing, items, entries, neither, has_equals,
  with_item, check_items, convert, to_pairs, to_mapping, validate_environment,
}

-- Options `-e`, each with a value that has an equals sign.
abbrev pub EnvFlags : List String → Type 0
EnvFlags [] = Unit
EnvFlags (option ∷ []) = ⊥
EnvFlags (option ∷ value ∷ rest) = (option ≡ "-e") × (has_equals value ≡ true) × EnvFlags rest

finds_equals : (s t : List ℕ) → contains (b'=' ∷ []) (s ++ b'=' ∷ t) ≡ true
unfolding contains is_prefix
finds_equals [] t = refl
finds_equals (c ∷ s) t = rw (finds_equals s t) (ground arith)

entry_has_equals : (key value : String) → has_equals (cat key (cat "=" value)) ≡ true
unfolding has_equals
entry_has_equals key value =
    ap (contains (codes "="))
      (codes-cat key (cat "=" value) ∙ ap (◌++◌ (codes key)) (codes-cat "=" value))
    ∙ finds_equals (codes key) (codes value)

mapping-EnvFlags : (env : Dict String) → EnvFlags (env_items env)
unfolding env_items
mapping-EnvFlags [] = tt
mapping-EnvFlags ((key, value) ∷ rest) = (refl, entry_has_equals key value, mapping-EnvFlags rest)

kept :
    (item : String) (r : Outcome (List String)) (list : List String)
    → with_item item r ≡ ok list
    → (rest : List String) × (r ≡ ok rest) × (item ∷ rest ≡ list)
kept item (ok rest) list h = (rest, refl, ground (arith, h))
kept item (raised e) list h = absurd (ground (arith, h))

items-EnvFlags :
    (values : List Value) (list : List String)
    → check_items values ≡ ok list
    → EnvFlags (each_flag "-e" list)
unfolding check_items each_flag
items-EnvFlags [] list h =
    let e : ◌≡◌ {A = List String} [] list = ground (arith, h) in
    subst (λ l. EnvFlags (each_flag "-e" l)) e tt
items-EnvFlags (text item ∷ values) list h = elim (Bool-cases (has_equals item)) [
  | inl good ↦
      let (rest, done, e) = kept item (check_items values) list (rw good at h) in
      subst (λ l. EnvFlags (each_flag "-e" l)) e (refl, good, items-EnvFlags values rest done)
  | inr bad ↦ absurd (let k = rw bad at h in ground (arith, k))
]
items-EnvFlags (null ∷ values) list h = absurd (ground (arith, h))
items-EnvFlags (scalar s ∷ values) list h = absurd (ground (arith, h))
items-EnvFlags (compound ∷ values) list h = absurd (ground (arith, h))

of_pairs :
    (r : Outcome (List String)) (env : Environment)
    → to_pairs r ≡ ok (some env)
    → (list : List String) × (r ≡ ok list) × (pairs list ≡ env)
of_pairs (ok list) env h = (list, refl, ground (arith, h))
of_pairs (raised e) env h = absurd (ground (arith, h))

of_mapping :
    (r : Outcome (Dict String)) (env : Environment)
    → to_mapping r ≡ ok (some env)
    → (dict : Dict String) × (mapping dict ≡ env)
of_mapping (ok dict) env h = (dict, ground (arith, h))
of_mapping (raised e) env h = absurd (ground (arith, h))

flags_of :
    (svc : ServiceConfig) (env : Environment)
    → svc.environment ≡ some env
    → build_env_flags svc ≡ build_env_flags (record svc { environment = some env })
unfolding build_env_flags
flags_of svc env h = rw (h, build_env_flags) refl

-- Whatever the YAML file gives for the environment of a service: if the validator accepts it, the
-- arguments that docker gets for it are options `-e`, each with a value that has an equals sign.
pub environment-EnvFlags :
    (raw : RawEnvironment) (env : Environment) (svc : ServiceConfig)
    → validate_environment raw ≡ ok (some env)
    → svc.environment ≡ some env
    → EnvFlags (build_env_flags svc)
unfolding validate_environment build_env_flags
environment-EnvFlags missing env svc h e = absurd (ground (arith, h))
environment-EnvFlags (items values) env svc h e =
    let (list, done, same) = of_pairs (check_items values) env h in
    subst EnvFlags (sym (flags_of svc env e)) (
      subst (λ v. EnvFlags (build_env_flags (record svc { environment = some v }))) same
        (items-EnvFlags values list done))
environment-EnvFlags (entries es) env svc h e =
    let (dict, same) = of_mapping (convert es []) env h in
    subst EnvFlags (sym (flags_of svc env e)) (
      subst (λ v. EnvFlags (build_env_flags (record svc { environment = some v }))) same
        (mapping-EnvFlags dict))
environment-EnvFlags neither env svc h e = absurd (ground (arith, h))
