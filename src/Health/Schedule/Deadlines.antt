-- ===== src/Health/Schedule/Deadlines.antt =====
-- When a service is checked.
use dockfleet.Prelude.{
  ℕ, ◌+◌, ◌*◌, String, ◌≡◌, ◌∙◌, refl, sym, ap, ◌==◌, eq_iff, Bool, true, false, List, [], ◌∷◌,
  Option, none, some, Dict, lookup, keys, member, lookup-put, leb, arith, if◌then◌else◌,
  Option-cases, inl, inr, Bool-cases,
}
use dockfleet.Cli.Config.{ServiceConfig, HealthCheckConfig}
use dockfleet.Health.Schedule.{
  second, is_due, due_services, interval_of, is_selected, set_deadline, set_deadlines,
}

-- The deadline of a service after its turn of the loop.
abbrev turn : ServiceConfig → Bool → ℕ → ℕ → Option ℕ → Option ℕ
turn svc chosen default base old = elim svc.healthcheck [
  | none ↦ old
  | some hc ↦ if chosen then some (base + interval_of default hc * second) else old
]

some_inj : {a b : ServiceConfig} → some a ≡ some b → a ≡ b
some_inj h = cc

-- No service stands twice in the configuration.
abbrev pub Distinct : Dict ServiceConfig → Type 0
Distinct [] = Unit
Distinct ((name, svc) ∷ rest) = (member name (keys rest) ≡ false) × Distinct rest

module _ (selected : Option (List String)) (default base : ℕ) where
  lookup-set_deadline :
      (k : String) (svc : ServiceConfig) (next : Dict ℕ) (name : String)
      → lookup name (set_deadline k svc selected default base next) ≡ (
          if k == name
          then turn svc (is_selected selected k) default base (lookup name next)
          else lookup name next)
  unfolding set_deadline
  lookup-set_deadline k svc next name = elim (Option-cases svc.healthcheck) [
    | inl free ↦ rw (free, set_deadline) (both (k == name) (lookup name next))
    | inr (hc, checked) ↦ elim (Bool-cases (is_selected selected k)) [
      | inl chosen ↦ rw (checked, set_deadline, chosen) (lookup-put k name _ next)
      | inr skipped ↦ rw (checked, set_deadline, skipped) (both (k == name) (lookup name next))
    ]
  ]
    where
      both : (b : Bool) (o : Option ℕ) → o ≡ (if b then o else o)
      both true o = refl
      both false o = refl

  set_deadlines-other :
      (services : Dict ServiceConfig) (next : Dict ℕ) (name : String)
      → member name (keys services) ≡ false
      → lookup name (set_deadlines services selected default base next) ≡ lookup name next
  unfolding set_deadlines keys member
  set_deadlines-other [] next name h = refl
  set_deadlines-other ((k, svc) ∷ rest) next name h = elim (Bool-cases (k == name)) [
    | inl here ↦ let h' = rw here at h in cc
    | inr there ↦
        set_deadlines-other rest (set_deadline k svc selected default base next) name
          (rw there at h)
        ∙ lookup-set_deadline k svc next name
        ∙ rw there refl
  ]

  lookup-set_deadlines :
      (services : Dict ServiceConfig) (next : Dict ℕ) (name : String) (svc : ServiceConfig)
      → Distinct services
      → lookup name services ≡ some svc
      → lookup name (set_deadlines services selected default base next)
        ≡ turn svc (is_selected selected name) default base (lookup name next)
  unfolding set_deadlines lookup
  lookup-set_deadlines [] next name svc d h = cc
  lookup-set_deadlines ((k, v) ∷ rest) next name svc d h = elim (Bool-cases (k == name)) [
    | inl here ↦
        let path = (eq_iff k name).0 here in
        let same : v ≡ svc = some_inj (rw here at h) in
        let old = lookup name next in
        set_deadlines-other rest (set_deadline k v selected default base next) name
          (ap (λ n. member n (keys rest)) (sym path) ∙ d.0)
        ∙ lookup-set_deadline k v next name
        ∙ rw here (
            ap (λ x. turn x (is_selected selected k) default base old) same
            ∙ ap (λ n. turn svc (is_selected selected n) default base old) path)
    | inr there ↦
        let next' = set_deadline k v selected default base next in
        lookup-set_deadlines rest next' name svc d.1 (rw there at h)
        ∙ ap (turn svc (is_selected selected name) default base)
            (lookup-set_deadline k v next name ∙ rw there refl)
  ]

not_due :
    (services : Dict ServiceConfig) (next : Dict ℕ) (now : ℕ) (name : String)
    → member name (keys services) ≡ false
    → member name (due_services services next now) ≡ false
unfolding due_services keys member
not_due [] next now name h = refl
not_due ((k, v) ∷ rest) next now name h = ground (arith, not_due rest next now name)

due_head :
    (k : String) (v : ServiceConfig) (others : List String) (name : String) (next : Dict ℕ)
    (now : ℕ)
    → (k == name) ≡ true
    → member name others ≡ false
    → member name (if is_due next now k v then k ∷ others else others) ≡ is_due next now k v
unfolding member
due_head k v others name next now here late = elim (Bool-cases (is_due next now k v)) [
  | inl due ↦ rw due (rw here refl)
  | inr idle ↦ rw idle late
]

due_tail :
    (k : String) (v : ServiceConfig) (others : List String) (name : String) (next : Dict ℕ)
    (now : ℕ)
    → (k == name) ≡ false
    → member name (if is_due next now k v then k ∷ others else others) ≡ member name others
unfolding member
due_tail k v others name next now there = elim (Bool-cases (is_due next now k v)) [
  | inl due ↦ rw due (rw there refl)
  | inr idle ↦ rw idle refl
]

member-due_services :
    (services : Dict ServiceConfig) (next : Dict ℕ) (now : ℕ) (name : String) (svc : ServiceConfig)
    → Distinct services
    → lookup name services ≡ some svc
    → member name (due_services services next now) ≡ is_due next now name svc
unfolding due_services lookup member
member-due_services [] next now name svc d h = cc
member-due_services ((k, v) ∷ rest) next now name svc d h = elim (Bool-cases (k == name)) [
  | inl here ↦
      let path = (eq_iff k name).0 here in
      let same : v ≡ svc = some_inj (rw here at h) in
      let late = not_due rest next now name (ap (λ n. member n (keys rest)) (sym path) ∙ d.0) in
      due_head k v (due_services rest next now) name next now here late
      ∙ ap (λ n. is_due next now n v) path
      ∙ ap (is_due next now name) same
  | inr there ↦
      due_tail k v (due_services rest next now) name next now there
      ∙ member-due_services rest next now name svc d.1 (rw there at h)
]

-- Take a configuration with distinct services, and a pass at `base` that takes a service with a
-- health check in. Whatever the deadlines before, the service is due again exactly from its own
-- interval after `base` on (the default interval, if it has none), also when the pass did not run
-- its check.
pub due_after_pass :
    (services : Dict ServiceConfig) (selected : Option (List String)) (default base now : ℕ)
    (next : Dict ℕ) (name : String) (svc : ServiceConfig) (hc : HealthCheckConfig)
    → Distinct services
    → lookup name services ≡ some svc
    → svc.healthcheck ≡ some hc
    → is_selected selected name ≡ true
    → member name (due_services services (set_deadlines services selected default base next) now)
      ≡ leb (base + interval_of default hc * second) now
unfolding is_due
due_after_pass services selected default base now next name svc hc d found checked chosen =
    let next' = set_deadlines services selected default base next in
    let at = lookup-set_deadlines selected default base services next name svc d found in
    let at' : lookup name next' ≡ some (base + interval_of default hc * second) =
      at ∙ rw (checked, chosen) refl in
    member-due_services services next' now name svc d found
    ∙ rw (checked, is_due) (rw (at', is_due) refl)
