-- ===== src/Health/Ingest.antt =====
-- dockfleet/health/log_ingestor.py: the poll of a service's container log. `parse` is
-- parse_docker_timestamp of Stamp; its results are points in time, which are numbers, so that
-- _normalize_utc_datetime keeps them.
pub mod Dedup
pub mod Held
pub mod Atomic
pub mod Whole
pub mod Stamp
use dockfleet.Prelude.{
  ℕ, suc, String, ◌==◌, Bool, true, false, not, ◌&&◌, List, [], ◌∷◌, ◌++◌, map, reverse, Option,
  none, some, Dict, eqb, ltb, leb, if◌then◌else◌, rstrip_text, decimal, cat, take, filter, sort_by,
}
use Prim.Native.Char.{Char, code}
use dockfleet.Core.Exec.{Command, Outcome, ok, raised}
use dockfleet.Health.Logs.{LogEvent}
use dockfleet.Health.Logs.Export.{or_blank}

-- A message with its time: what the loop compares and stores.
abbrev pub Entry : Type 0
Entry = ℕ × String

unfoldable pub same_entry : Entry → Entry → Bool
same_entry (t, m) (u, n) = eqb t u && m == n

-- `item in records`
unfoldable pub has_entry : Entry → List Entry → Bool
unfolding same_entry
has_entry x [] = false
has_entry x (y ∷ ys) = let rest = has_entry x ys in if same_entry x y then true else rest

-- `records.remove(item)`: the first that is equal
unfoldable pub remove_entry : Entry → List Entry → List Entry
unfolding same_entry
remove_entry x [] = []
remove_entry x (y ∷ ys) = let rest = remove_entry x ys in if same_entry x y then ys else y ∷ rest

-- A line of the log: the text of its time stamp, if it has one, its time and its message.
pub record Parsed : Type 0 where
  pub raw_ts : Option String
  pub entry : Entry

abbrev before_char : Char → Option (String × String) → Option (String × String)
before_char c none = none
before_char c (some (head, tail)) = some (String.◌∷◌ c head, tail)

-- `line.split(" ", 1)`, if there is a space
unfoldable pub split_space : String → Option (String × String)
split_space String.[] = none
split_space (String.◌∷◌ c s) =
    let rest = split_space s in if eqb (code c) 32 then some ("", s) else before_char c rest

module _ (parse : String → Option ℕ) where
  abbrev stamped : ℕ → String → String → String → Option ℕ → Parsed
  stamped now line ts message none = record { raw_ts = none; entry = (now, line) }
  stamped now line ts message (some t) = record { raw_ts = some ts; entry = (t, message) }

  abbrev split_line : ℕ → String → Option (String × String) → Parsed
  split_line now line none = record { raw_ts = none; entry = (now, line) }
  split_line now line (some (ts, message)) = stamped now line ts message (parse ts)

  -- `now` is the clock when the loop comes to the line.
  unfoldable pub parse_line : ℕ → String → Parsed
  unfolding split_space
  parse_line now line = split_line now line (split_space line)

unfoldable pub at_cursor : ℕ → Option String → Entry → List Entry → Option (List Entry)
unfolding has_entry remove_entry
at_cursor cursor none e records = none
at_cursor cursor (some ts) (t, message) records =
    if ltb t cursor
    then some records
    else if eqb t cursor && has_entry (t, message) records
    then some (remove_entry (t, message) records)
    else none

-- The lines of the last poll at its end, which this poll sees again: `some` is a line that the loop
-- skips, with the records that are left.
unfoldable pub skipped : Option ℕ → Parsed → List Entry → Option (List Entry)
unfolding at_cursor
skipped none p records = none
skipped (some cursor) p records = at_cursor cursor p.raw_ts p.entry records

-- `text or other`, for the texts of time stamps
unfoldable pub or_else : Option String → Option String → Option String
or_else none other = other
or_else (some ts) other = if ts == "" then other else some ts

-- The loop's variables, and what is committed: the rows, and the cursor's row.
pub record Ingest : Type 0 where
  pub records : List Entry
  pub last_ts : Option String
  pub pending : List Entry
  pub batch_count : ℕ
  pub stored : List Entry
  pub cursor : Option String
  pub commits : ℕ

abbrev pub Ran : Type 0
Ran = Outcome (Unit {0}) × Ingest

abbrev pub batch_limit : ℕ
batch_limit = 1000

module _ (parse : String → Option ℕ) (commit_works : ℕ → Bool) (cursor_dt : Option ℕ) where
  -- `session.commit()` after the cursor's row is set; when it fails, nothing of the batch stays.
  unfoldable pub commit_batch : Ingest → Ran
  unfolding or_else
  commit_batch s =
      if commit_works s.commits
      then (
        ok tt,
        record s {
          stored = s.stored ++ s.pending;
          pending = [];
          batch_count = 0;
          cursor = or_else s.last_ts s.cursor;
          commits = suc s.commits;
        },
      )
      else (raised "commit failed", record s { pending = []; commits = suc s.commits })

  unfoldable pub add_event : Parsed → Ingest → Ingest
  unfolding or_else
  add_event p s = record s {
    last_ts = or_else p.raw_ts s.last_ts;
    pending = s.pending ++ p.entry ∷ [];
    batch_count = suc s.batch_count;
  }

  unfoldable pub keep_line : Parsed → Ingest → Ran
  unfolding add_event commit_batch
  keep_line p s =
      let s' = add_event p s in
      if leb batch_limit s'.batch_count then commit_batch s' else (ok tt, s')

  unfoldable pub dedup : Parsed → Ingest → Option (List Entry) → Ran
  unfolding keep_line
  dedup p s none = keep_line p s
  dedup p s (some records) = (ok tt, record s { records = records })

  -- One turn of the loop.
  unfoldable pub ingest_line : ℕ → String → Ingest → Ran
  unfolding parse_line skipped dedup
  ingest_line now line s =
      let text = rstrip_text line in
      let p = parse_line parse now text in
      if text == "" then (ok tt, s) else dedup p s (skipped cursor_dt p s.records)

  abbrev pub continue : (Ingest → Ran) → Ran → Ran
  continue rest (ok done, s) = rest s
  continue rest (raised e, s) = (raised e, s)

  -- The lines with the times at which the loop comes to them, and the commit behind the loop.
  unfoldable pub ingest_lines : List (ℕ × String) → Ingest → Ran
  unfolding ingest_line commit_batch
  ingest_lines [] s = if ltb 0 s.batch_count then commit_batch s else (ok tt, s)
  ingest_lines ((now, line) ∷ lines) s = continue (ingest_lines lines) (ingest_line now line s)

unfoldable pub by_id_desc : LogEvent → LogEvent → Bool
by_id_desc a b = ltb b.id a.id

-- The rows of the service that stand at the cursor or behind it, of its last 500.
unfoldable pub boundary_records : ℕ → ℕ → List LogEvent → List Entry
unfolding filter sort_by by_id_desc or_blank
boundary_records service_id cursor logs =
    map (λ e. (e.created_at, or_blank e.message))
      (filter (λ e. leb cursor e.created_at)
        (take 500 (sort_by by_id_desc (filter (λ e. eqb e.service_id service_id) logs))))

unfoldable pub docker_logs_command : String → Option String → ℕ → Command
unfolding decimal
docker_logs_command name none tail =
    "docker" ∷ "logs" ∷ "--timestamps" ∷ "--tail" ∷ decimal tail ∷ cat "dockfleet_" name ∷ []
docker_logs_command name (some ts) tail =
    "docker" ∷ "logs" ∷ "--timestamps" ∷ "--since" ∷ ts ∷ cat "dockfleet_" name ∷ []

-- The process of `docker logs`: its exit code and its lines, or the error that kept it from starting.
pub data DockerLogs : Type 0 where
  not_started : DockerLogs
  ended : ℕ → List (ℕ × String) → DockerLogs

-- The lines that are staged: without white space at the end, and without the blank ones.
unfoldable pub spooled : List (ℕ × String) → List (ℕ × String)
unfolding rstrip_text
spooled [] = []
spooled ((now, line) ∷ lines) =
    let rest = spooled lines in
    let text = rstrip_text line in if text == "" then rest else (now, text) ∷ rest

abbrev pub cursor_time : (String → Option ℕ) → Option String → Option ℕ
cursor_time parse none = none
cursor_time parse (some ts) = if ts == "" then none else parse ts

unfoldable pub records_of : ℕ → List LogEvent → Option ℕ → List Entry
unfolding boundary_records
records_of service_id logs none = []
records_of service_id logs (some t) = boundary_records service_id t logs

-- The state in which the loop of a poll starts.
unfoldable pub begin : (String → Option ℕ) → ℕ → Option String → List LogEvent → Ingest
unfolding records_of
begin parse service_id cursor logs = record {
  records = records_of service_id logs (cursor_time parse cursor);
  last_ts = cursor;
  pending = [];
  batch_count = 0;
  stored = [];
  cursor = cursor;
  commits = 0;
}

-- A poll: what it stores, and the service's cursor behind it.
unfoldable pub on_output :
    (String → Option ℕ) → (ℕ → Bool) → Option String → Ingest → DockerLogs → Ran
unfolding ingest_lines spooled
on_output parse commit_works cursor s not_started = (ok tt, s)
on_output parse commit_works cursor s (ended code lines) =
    if eqb code 0
    then ingest_lines parse commit_works (cursor_time parse cursor) (spooled lines) s
    else (ok tt, s)

unfoldable pub ingest_single_service_logs :
    (String → Option ℕ)
    → (ℕ → Bool)
    → (Command → DockerLogs)
    → ℕ
    → String
    → ℕ
    → Option String
    → List LogEvent
    → Ran
unfolding on_output begin docker_logs_command
ingest_single_service_logs parse commit_works docker service_id name tail cursor logs =
    on_output parse commit_works cursor (begin parse service_id cursor logs)
      (docker (docker_logs_command name cursor tail))
