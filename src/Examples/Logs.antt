-- ===== src/Examples/Logs.antt =====
-- The theorems on the log table and on the polls of container logs, at concrete rows and lines.
use dockfleet.Prelude.{
  ℕ, String, ◌==◌, ◌≡◌, refl, Bool, true, [], ◌∷◌, List, Option, none, some, arith, map, decimal,
  lookup, Sorted, ltb, eqb, if◌then◌else◌, ◌-◌, All, rstrip_text, filter, sort_by,
}
use dockfleet.Core.Exec.{Command}
use dockfleet.Health.Logs.{LogEvent, LogStore, newer, store_log_line, add_row}
use dockfleet.Health.Logs.Export.{
  or_blank, concat, columns, text_line, iter_logs_as_text, iter_logs_as_csv,
}
use dockfleet.Health.Logs.Csv.{read_csv, header_columns}
use dockfleet.Health.Logs.Pages.{listing}
use dockfleet.Health.Logs.RoundTrip.{text_download, csv_download}
use dockfleet.Health.Logs.Stored.{CacheOf, number_of, store_transparent}
use dockfleet.Health.Ingest.{
  DockerLogs, ended, cursor_time, records_of, boundary_records, spooled, docker_logs_command,
  ingest_single_service_logs, on_output, begin, parse_line, split_space, skipped, at_cursor, dedup,
  keep_line, add_event, commit_batch, or_else, has_entry, remove_entry, same_entry, by_id_desc,
  ingest_lines, ingest_line,
}
use dockfleet.Health.Ingest.Dedup.{kept, count, Stamped}
use dockfleet.Health.Ingest.Held.{entries, parsed}
use dockfleet.Health.Ingest.Atomic.{StoresFrom}
use dockfleet.Health.Ingest.Whole.{poll_stores, poll_counts}
use dockfleet.Examples.Data.{rows}

abbrev started : LogEvent
started = record {
  id = 1;
  service_id = 1;
  service_name = "web";
  created_at = 10;
  level = none;
  message = some "ready";
  source = some "docker-logs-ingestor";
}

abbrev complaint : LogEvent
complaint = record started {
  id = 2;
  created_at = 20;
  level = some "WARN";
  message = some "bad header \"Host\", closed";
}

abbrev two_logs : List LogEvent
two_logs = started ∷ complaint ∷ []

text_download_example :
    (iter_logs_as_text decimal none none 1 two_logs
      ≡ map (text_line decimal) (listing none none two_logs))
    × Sorted newer (listing none none two_logs)
text_download_example =
    text_download decimal none none 1 (omega arith) two_logs ((refl, tt), (tt, tt))

csv_download_example :
    read_csv (concat (iter_logs_as_csv decimal none none 1 two_logs))
    ≡ header_columns ∷ map (columns decimal) (listing none none two_logs)
csv_download_example =
    csv_download decimal none none 1 (omega arith) two_logs ((refl, tt), (tt, tt))

abbrev no_logs : LogStore
no_logs = record { logs = []; id_cache = [] }

no_logs-CacheOf : CacheOf rows no_logs.id_cache
unfolding lookup
no_logs-CacheOf k id h = ground arith

store_transparent_example :
    ((store_log_line 1 30 rows "web" "ready" none none no_logs).logs
      ≡ add_row (number_of "web" rows) 1 30 "web" "ready" none none [])
    × CacheOf rows (store_log_line 1 30 rows "web" "ready" none none no_logs).id_cache
store_transparent_example =
    store_transparent rows "web" 1 30 "ready" none none no_logs no_logs-CacheOf

-- Time stamps of one letter.
abbrev parse_letter : String → Option ℕ
parse_letter ts = if ts == "a" then some 10 else if ts == "b" then some 20 else none

abbrev all_work : ℕ → Bool
all_work n = true

abbrev web_lines : List (ℕ × String)
web_lines = (40, "a ready") ∷ (40, "b ready\n") ∷ []

abbrev web_docker : Command → DockerLogs
web_docker command = ended 0 web_lines

web_lines-Stamped : All Stamped (parsed parse_letter (spooled web_lines))
unfolding parsed parse_line spooled rstrip_text split_space
web_lines-Stamped = (("a", refl), (("b", refl), tt))

-- The line at the cursor is stored already, the other is not.
web_polled :
    (ingest_single_service_logs parse_letter all_work web_docker 1 "web" 200
      (some "a")
      two_logs).1.stored
    ≡ (20, "ready") ∷ []
unfolding ingest_single_service_logs on_output begin docker_logs_command records_of boundary_records
    ingest_lines ingest_line parse_line spooled rstrip_text split_space skipped at_cursor dedup
    keep_line add_event commit_batch or_else has_entry remove_entry same_entry or_blank filter
    sort_by by_id_desc
web_polled = refl

poll_stores_example :
    StoresFrom parse_letter all_work
      (cursor_time parse_letter (some "a"))
      0
      []
      (some "a")
      (kept
        (cursor_time parse_letter (some "a"))
        (parsed parse_letter (spooled web_lines))
        (records_of 1 two_logs (cursor_time parse_letter (some "a"))))
      (ingest_single_service_logs parse_letter all_work web_docker 1 "web" 200 (some "a") two_logs)
poll_stores_example =
    poll_stores parse_letter all_work web_docker 1 "web" 200 (some "a") two_logs web_lines refl

poll_counts_example :
    count
      (10, "ready")
      (ingest_single_service_logs parse_letter all_work web_docker 1 "web" 200
        (some "a")
        two_logs).1.stored
    ≡ (if ltb 10 10
        then 0
        else if eqb 10 10
        then count (10, "ready") (entries (parsed parse_letter (spooled web_lines)))
          - count (10, "ready") (boundary_records 1 10 two_logs)
        else count (10, "ready") (entries (parsed parse_letter (spooled web_lines))))
poll_counts_example =
    poll_counts parse_letter all_work web_docker 1 "web" 200 (some "a") two_logs web_lines refl
      (λ n. refl) 10 refl web_lines-Stamped 10 "ready"
