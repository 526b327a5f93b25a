-- ===== src/Health/Logs.antt =====
-- dockfleet/health/logs.py: the rows of the log table, and how they are stored and queried.
-- A point in time is a number. The texts that the program looks into are lists of code points.
pub mod Order
pub mod Stored
pub mod Export
pub mod Pages
pub mod Csv
pub mod RoundTrip
use dockfleet.Prelude.{
  ℕ, String, ◌==◌, Bool, true, false, ◌&&◌, ◌||◌, List, [], ◌∷◌, ◌++◌, Option, none, some, Dict,
  lookup, put, min, eqb, ltb, if◌then◌else◌, codes, lower, same_codes, contains, take, drop, filter,
  sort_by,
}
use dockfleet.Health.Models.{Service, Db}
use dockfleet.Health.Models.Rows.{row}

-- class LogEvent
pub record LogEvent : Type 0 where
  pub id : ℕ
  pub service_id : ℕ
  pub service_name : String
  pub created_at : ℕ
  pub level : Option String
  pub message : Option String
  pub source : Option String

-- The log table, and the entry of `_SERVICE_ID_CACHE` for its database.
pub record LogStore : Type 0 where
  pub logs : List LogEvent
  pub id_cache : Dict ℕ

-- The cache as the first block leaves it.
abbrev pub learn : String → Option Service → Dict ℕ → Dict ℕ
learn name none cache = cache
learn name (some svc) cache = put name svc.id cache

unfoldable pub cached_ids : String → Db → Dict ℕ → Dict ℕ
unfolding lookup put
cached_ids name db cache = elim (lookup name cache) [
  | some id ↦ cache
  | none ↦ learn name (row name db) cache
]

-- `new_id` is the primary key that the database gives to the row.
abbrev pub log_row : ℕ → ℕ → ℕ → String → String → Option String → Option String → LogEvent
log_row new_id now service_id name message level source = record {
  id = new_id;
  service_id = service_id;
  service_name = name;
  created_at = now;
  level = level;
  message = some message;
  source = source;
}

abbrev pub add_row :
    Option ℕ
    → ℕ
    → ℕ
    → String
    → String
    → Option String
    → Option String
    → List LogEvent
    → List LogEvent
add_row none new_id now name message level source logs = logs
add_row (some service_id) new_id now name message level source logs =
    logs ++ log_row new_id now service_id name message level source ∷ []

unfoldable pub store_log_line :
    ℕ → ℕ → Db → String → String → Option String → Option String → LogStore → LogStore
unfolding cached_ids lookup
store_log_line new_id now db name message level source store =
    let cache = cached_ids name db store.id_cache in
    record {
      logs = add_row (lookup name cache) new_id now name message level source store.logs;
      id_cache = cache;
    }

-- `order_by(created_at.desc(), id.desc())`
unfoldable pub newer : LogEvent → LogEvent → Bool
newer a b = ltb b.created_at a.created_at || (eqb b.created_at a.created_at && ltb b.id a.id)

-- `func.lower(service_name) == name.lower()`, for ASCII letters
unfoldable pub of_service : Option String → LogEvent → Bool
unfolding same_codes lower
of_service none e = true
of_service (some name) e =
    if name == "" then true else same_codes (lower (codes e.service_name)) (lower (codes name))

-- `message.contains(q)` is SQLite's LIKE, which takes ASCII letters in either case; a NULL matches
-- nothing.
abbrev like : List ℕ → Option String → Bool
unfolding contains lower
like q none = false
like q (some message) = contains (lower q) (lower (codes message))

unfoldable pub has_text : Option String → LogEvent → Bool
unfolding contains lower
has_text none e = true
has_text (some q) e = if q == "" then true else like (codes q) e.message

-- `cursor_ts` and `cursor_id`, when both are given.
abbrev pub Cursor : Type 0
Cursor = Option (ℕ × ℕ)

unfoldable pub behind : Cursor → LogEvent → Bool
behind none e = true
behind (some (ts, id)) e = ltb e.created_at ts || (eqb e.created_at ts && ltb e.id id)

abbrev pub hard_cap : ℕ
hard_cap = 1000

-- Without a limit and a cursor: all that a query may return.
unfoldable pub matching : Option String → Option String → List LogEvent → List LogEvent
unfolding filter of_service has_text
matching name q logs = filter (has_text q) (filter (of_service name) logs)

unfoldable pub query_logs :
    Option String → Option String → ℕ → ℕ → Cursor → List LogEvent → List LogEvent
unfolding matching filter behind sort_by newer
query_logs name q limit offset cursor logs =
    take (min limit hard_cap)
      (drop offset (sort_by newer (filter (behind cursor) (matching name q logs))))
