-- ===== src/Health/Ingest/Whole.antt =====
-- A whole poll: ingest_single_service_logs.
use dockfleet.Prelude.{
  ℕ, ◌-◌, String, Bool, true, List, [], Option, some, ◌≡◌, ◌∙◌, refl, ap, ltb, eqb, if◌then◌else◌,
  All,
}
use dockfleet.Core.Exec.{Command}
use dockfleet.Health.Logs.{LogEvent}
use dockfleet.Health.Ingest.{
  DockerLogs, ended, cursor_time, records_of, boundary_records, begin, spooled, on_output,
  docker_logs_command, ingest_single_service_logs,
}
use dockfleet.Health.Ingest.Dedup.{kept, count, count-kept, Stamped}
use dockfleet.Health.Ingest.Held.{entries, parsed, last_raw}
use dockfleet.Health.Ingest.Atomic.{all_stored, StoresFrom, ingest_lines-Stores}

module _ (parse : String → Option ℕ) (commit_works : ℕ → Bool) (docker : Command → DockerLogs)
    (service_id : ℕ) (name : String) (tail : ℕ) (cursor : Option String) (logs : List LogEvent)
    (lines : List (ℕ × String))
    (replied : docker (docker_logs_command name cursor tail) ≡ ended 0 lines) where
  -- When docker ends well, a poll stores a first part of the lines that are no repetitions, and the
  -- cursor is then the last time stamp of that part. Either that part is all of these lines and the poll
  -- returns, or the last commit that the poll made failed and the poll raises its error. So the cursor
  -- never passes a line that is not stored.
  pub poll_stores :
      StoresFrom parse commit_works
        (cursor_time parse cursor)
        0
        []
        cursor
        (kept
          (cursor_time parse cursor)
          (parsed parse (spooled lines))
          (records_of service_id logs (cursor_time parse cursor)))
        (ingest_single_service_logs parse commit_works docker service_id name tail cursor logs)
  unfolding ingest_single_service_logs on_output begin last_raw
  poll_stores = rw replied (
      ingest_lines-Stores parse commit_works (cursor_time parse cursor) (spooled lines)
        (begin parse service_id cursor logs) [] (refl, refl, refl))

  -- When docker ends well, all commits work, the cursor has a time, and each line has a time stamp: of each
  -- message at each time, a poll stores none that is older than the cursor, all that are younger, and of
  -- those at the cursor as many as there are more lines than rows of that time and message among the
  -- service's 500 newest rows, whatever their source.
  pub poll_counts :
      (works : (n : ℕ) → commit_works n ≡ true) (c : ℕ) (time : cursor_time parse cursor ≡ some c)
      → All Stamped (parsed parse (spooled lines))
      → (t : ℕ) (m : String)
      → count
          (t, m)
          (ingest_single_service_logs parse commit_works docker service_id name tail cursor
            logs).1.stored
        ≡ (if ltb t c
            then 0
            else if eqb t c
            then count (t, m) (entries (parsed parse (spooled lines)))
              - count (t, m) (boundary_records service_id c logs)
            else count (t, m) (entries (parsed parse (spooled lines))))
  unfolding records_of
  poll_counts works c time stamped t m =
      ap (count (t, m))
        (all_stored parse commit_works (cursor_time parse cursor) 0 _ _ _ _ works poll_stores)
      ∙ rw (time, records_of)
          (count-kept c t m (parsed parse (spooled lines)) (boundary_records service_id c logs)
            stamped)
