-- ===== src/Health/Queries/Tally.antt =====
-- The counts of the dashboard.
use dockfleet.Prelude.{
  ℕ, zero, suc, ◌+◌, String, ◌==◌, eq_iff, List, [], ◌∷◌, map, Option, none, some, Dict, lookup,
  put, lookup-put, if◌then◌else◌, ◌≡◌, ◌∙◌, refl, ap, arith, Bool-cases, inl, inr, length,
}
use dockfleet.Health.Models.{
  Service, Db, ContainerStatus, running, stopped, unknown, container_value,
}
use dockfleet.Health.Queries.{
  one_more, count_each, get_status_counts, get_all_services, sum_of, is_running,
  get_running_services_count,
}

-- How often a text stands in a list.
unfoldable pub occurrences : String → List String → ℕ
occurrences k [] = 0
occurrences k (j ∷ keys) = let rest = occurrences k keys in if j == k then suc rest else rest

-- The count in a dictionary, where a missing one is zero and no zero is stored.
abbrev pub as_count : ℕ → Option ℕ
as_count zero = none
as_count (suc n) = some (suc n)

abbrev pub or_zero : Option ℕ → ℕ
or_zero none = 0
or_zero (some n) = n

counted : (n : ℕ) → some (one_more (as_count n)) ≡ as_count (suc n)
unfolding one_more
counted zero = refl
counted (suc n) = refl

lookup-count_each :
    (k : String) (keys : List String) (counts : Dict ℕ) (n : ℕ)
    → lookup k counts ≡ as_count n
    → lookup k (count_each counts keys) ≡ as_count (n + occurrences k keys)
unfolding count_each occurrences one_more
lookup-count_each k [] counts n h = h ∙ ap as_count (omega arith)
lookup-count_each k (j ∷ keys) counts n h = elim (Bool-cases (j == k)) [
  | inl same ↦ rw same (
      lookup-count_each k keys (put j (one_more (lookup j counts)) counts) (suc n) (
        lookup-put j k (one_more (lookup j counts)) counts
        ∙ rw same (
            ap (λ o. some (one_more o)) (ap (λ i. lookup i counts) ((eq_iff j k).0 same) ∙ h)
            ∙ counted n))
      ∙ ap as_count (omega arith))
  | inr other ↦ rw other (
      lookup-count_each k keys (put j (one_more (lookup j counts)) counts) n
        (lookup-put j k (one_more (lookup j counts)) counts ∙ rw other h))
]

-- The loop counts how often each text stands in the list.
pub counts_each :
    (k : String) (keys : List String)
    → lookup k (count_each [] keys) ≡ as_count (occurrences k keys)
unfolding lookup
counts_each k keys = lookup-count_each k keys [] 0 refl ∙ ap as_count (omega arith)

-- `sum(d.values())`
unfoldable pub total : Dict ℕ → ℕ
total [] = 0
total ((k, n) ∷ d) = n + total d

total-put : (k : String) (d : Dict ℕ) → total (put k (one_more (lookup k d)) d) ≡ suc (total d)
unfolding total put lookup one_more
total-put k [] = refl
total-put k ((j, n) ∷ d) = elim (Bool-cases (j == k)) [
  | inl here ↦ rw (here, put, lookup) (omega arith)
  | inr there ↦ ground (arith, there, total-put k d)
]

total-count_each :
    (keys : List String) (counts : Dict ℕ)
    → total (count_each counts keys) ≡ total counts + length keys
unfolding count_each
total-count_each [] counts = omega arith
total-count_each (k ∷ keys) counts =
    omega
      (arith, total-count_each keys (put k (one_more (lookup k counts)) counts), total-put k counts)

pub or_zero-as_count : (n : ℕ) → or_zero (as_count n) ≡ n
or_zero-as_count zero = refl
or_zero-as_count (suc n) = refl

length-map :
    (rows : List Service) → length (map (λ svc. container_value svc.status) rows) ≡ length rows
length-map [] = refl
length-map (svc ∷ rows) = ap suc (length-map rows)

running_row :
    (s : ContainerStatus) (n : ℕ)
    → (if container_value s == "running" then suc n else n) ≡ is_running s + n
unfolding container_value is_running
running_row running n = omega arith
running_row stopped n = omega arith
running_row unknown n = omega arith

running_rows :
    (rows : List Service)
    → occurrences "running" (map (λ svc. container_value svc.status) rows)
      ≡ sum_of (λ svc. is_running svc.status) rows
unfolding occurrences sum_of is_running container_value
running_rows [] = refl
running_rows (svc ∷ rows) =
    running_row svc.status _ ∙ ap (λ n. is_running svc.status + n) (running_rows rows)

-- The counts by status add up to the number of services, and the count of the running ones is that of
-- the metrics.
pub status_counts_whole :
    (db : Db)
    → (total (get_status_counts db) ≡ length db.services)
      × (or_zero (lookup "running" (get_status_counts db)) ≡ get_running_services_count db)
unfolding get_status_counts get_all_services get_running_services_count total
status_counts_whole db = (
  omega (
    arith,
    total-count_each (map (λ svc. container_value svc.status) db.services) [],
    length-map db.services,
  ),
  ap or_zero (counts_each "running" (map (λ svc. container_value svc.status) db.services))
      ∙ or_zero-as_count _
      ∙ running_rows db.services,
)
