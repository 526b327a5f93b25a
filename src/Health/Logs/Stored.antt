-- ===== src/Health/Logs/Stored.antt =====
-- What store_log_line does to the log table and to the cache of service numbers.
use dockfleet.Prelude.{
  ℕ, String, ◌≡◌, refl, sym, ap, ◌∙◌, ◌==◌, eq_iff, Option, none, some, Dict, lookup, lookup-put,
  arith, Bool-cases, Option-cases, inl, inr,
}
use mathlib.Core.Option
use dockfleet.Health.Models.{Service, Db}
use dockfleet.Health.Models.Rows.{row}
use dockfleet.Health.Logs.{LogStore, add_row, learn, cached_ids, store_log_line}

-- The number that the database has for a service.
abbrev pub number_of : String → Db → Option ℕ
number_of name db = Option.map (λ svc. svc.id) (row name db)

-- Whatever the cache holds is what the database has.
abbrev pub CacheOf : Db → Dict ℕ → Type 0
CacheOf db cache = (k : String) (id : ℕ) → lookup k cache ≡ some id → number_of k db ≡ some id

some_injective : (a b : ℕ) → some a ≡ some b → a ≡ b
some_injective a b h = cc

module _ (db : Db) (name : String) where
  learn-CacheOf :
      (cache : Dict ℕ) (found : Option Service)
      → row name db ≡ found
      → CacheOf db cache
      → CacheOf db (learn name found cache)
  learn-CacheOf cache none e valid = valid
  learn-CacheOf cache (some svc) e valid = λ k id h. elim (Bool-cases (name == k)) [
    | inl same ↦
        ap (λ n. number_of n db) (sym ((eq_iff name k).0 same))
        ∙ ap (Option.map (λ s. s.id)) e
        ∙ rw same at (sym (lookup-put name k svc.id cache) ∙ h)
    | inr other ↦ valid k id (rw other at (sym (lookup-put name k svc.id cache) ∙ h))
  ]

  lookup-learn :
      (cache : Dict ℕ) (found : Option Service)
      → lookup name cache ≡ none
      → lookup name (learn name found cache) ≡ Option.map (λ svc. svc.id) found
  lookup-learn cache none h = h
  lookup-learn cache (some svc) h =
      lookup-put name name svc.id cache ∙ ground (arith, eq_iff name name)

  cached_ids-CacheOf : (cache : Dict ℕ) → CacheOf db cache → CacheOf db (cached_ids name db cache)
  unfolding cached_ids
  cached_ids-CacheOf cache valid = elim (Option-cases (lookup name cache)) [
    | inl unseen ↦ rw (unseen, cached_ids) (learn-CacheOf cache (row name db) refl valid)
    | inr (id, seen) ↦ rw (seen, cached_ids) valid
  ]

  lookup-cached_ids :
      (cache : Dict ℕ)
      → CacheOf db cache
      → lookup name (cached_ids name db cache) ≡ number_of name db
  unfolding cached_ids
  lookup-cached_ids cache valid = elim (Option-cases (lookup name cache)) [
    | inl unseen ↦ rw (unseen, cached_ids) (lookup-learn cache (row name db) unseen)
    | inr (id, seen) ↦ rw (seen, cached_ids) (seen ∙ sym (valid name id seen))
  ]

  -- If the cache agrees with the database, a line is stored as if the service were looked up each
  -- time: one row with the number of the service if it has a row, and none otherwise. The cache
  -- agrees with the database afterwards.
  pub store_transparent :
      (new_id now : ℕ) (message : String) (level source : Option String) (store : LogStore)
      → CacheOf db store.id_cache
      → ((store_log_line new_id now db name message level source store).logs
          ≡ add_row (number_of name db) new_id now name message level source store.logs)
        × CacheOf db (store_log_line new_id now db name message level source store).id_cache
  unfolding store_log_line
  store_transparent new_id now message level source store valid = (
    ap (λ id. add_row id new_id now name message level source store.logs)
        (lookup-cached_ids store.id_cache valid),
    cached_ids-CacheOf store.id_cache valid,
  )
