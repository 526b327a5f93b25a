-- ===== src/Health/Ingest/Dedup.antt =====
-- How often a message is stored that the last poll may have stored already.
use dockfleet.Prelude.{
  ℕ, suc, ◌-◌, String, eq_iff, true, false, ◌&&◌, List, [], ◌∷◌, map, Option, none, some, ◌≡◌, refl,
  arith, eqb, ltb, if◌then◌else◌, Bool-cases, inl, inr, All,
}
use dockfleet.Health.Ingest.{Entry, Parsed, same_entry, has_entry, remove_entry, at_cursor, skipped}

-- The lines that the loop keeps.
abbrev pub kept_if :
    Parsed → (List Entry → List Parsed) → List Entry → Option (List Entry) → List Parsed
kept_if p rest records none = p ∷ rest records
kept_if p rest records (some left) = rest left

unfoldable pub kept : Option ℕ → List Parsed → List Entry → List Parsed
unfolding skipped
kept cursor [] records = []
kept cursor (p ∷ ps) records = kept_if p (kept cursor ps) records (skipped cursor p records)

-- `Counter(items)[x]`
unfoldable pub count : Entry → List Entry → ℕ
unfolding same_entry
count x [] = 0
count x (y ∷ ys) = let rest = count x ys in if same_entry x y then suc rest else rest

same_entry_refl : (x : Entry) → same_entry x x ≡ true
unfolding same_entry
same_entry_refl (t, m) = ground (arith, eq_iff m m)

same_entry-sym : (x y : Entry) → same_entry x y ≡ same_entry y x
unfolding same_entry
same_entry-sym (t, m) (u, n) = ground (arith, eq_iff m n, eq_iff n m)

same_entry-subst : (x y z : Entry) → same_entry y z ≡ true → same_entry x y ≡ same_entry x z
unfolding same_entry
same_entry-subst (t, m) (u, n) (v, o) h = ground (arith, eq_iff m n, eq_iff n o, eq_iff m o)

count-remove_entry :
    (x y : Entry) (b : List Entry)
    → has_entry y b ≡ true
    → count x b
      ≡ (if same_entry x y then suc (count x (remove_entry y b)) else count x (remove_entry y b))
unfolding count has_entry remove_entry
count-remove_entry x y [] h = ground arith
count-remove_entry x y (z ∷ b) h = ground (arith, count-remove_entry x y b, same_entry-subst x y z)

count-absent :
    (x y : Entry) (b : List Entry) → same_entry x y ≡ true → has_entry y b ≡ false → count x b ≡ 0
unfolding count has_entry
count-absent x y [] e h = refl
count-absent x y (z ∷ b) e h =
    ground
      (arith, count-absent x y b e, same_entry-subst z x y, same_entry-sym x z, same_entry-sym y z)

same_time : (x y : Entry) → same_entry x y ≡ true → x.0 ≡ y.0
unfolding same_entry
same_time (t, m) (u, n) h = ground arith

-- Each line has a time stamp.
abbrev pub Stamped : Parsed → Type 0
Stamped p = (ts : String) × (p.raw_ts ≡ some ts)

-- Of the lines with a time stamp, those older than the cursor are never stored, those behind it always,
-- and of those at the cursor as many of each message as there are more lines than records.
pub count-kept :
    (cursor t : ℕ) (m : String) (ps : List Parsed) (b : List Entry)
    → All Stamped ps
    → count (t, m) (map (λ p. p.entry) (kept (some cursor) ps b)) ≡ (
        if ltb t cursor
        then 0
        else if eqb t cursor
        then count (t, m) (map (λ p. p.entry) ps) - count (t, m) b
        else count (t, m) (map (λ p. p.entry) ps))
unfolding kept count skipped at_cursor
count-kept cursor t m [] b h = ground arith
count-kept cursor t m (p ∷ ps) b h = elim (Bool-cases (ltb p.entry.0 cursor)) [
  | inl old ↦
      rw (h.0.1, old, kept)
        (ground (arith, count-kept cursor t m ps b h.1, same_time (t, m) p.entry, old))
  | inr recent ↦ elim (Bool-cases (eqb p.entry.0 cursor && has_entry p.entry b)) [
    | inl again ↦
        rw (h.0.1, recent, again, kept)
          (ground (
            arith,
            count-kept cursor t m ps (remove_entry p.entry b) h.1,
            count-remove_entry (t, m) p.entry b,
            same_time (t, m) p.entry,
            again,
          ))
    | inr fresh ↦
        rw (h.0.1, recent, fresh, kept)
          (ground (
            arith,
            count-kept cursor t m ps b h.1,
            count-absent (t, m) p.entry b,
            same_time (t, m) p.entry,
            fresh,
            recent,
          ))
  ]
]
