-- ===== src/Examples/Streams.antt =====
-- The theorems on the stream of a container's log at concrete turns.
use dockfleet.Prelude.{ℕ, true, false, ◌≡◌, ◌↔◌, ◌<◌, refl, List, [], ◌∷◌, ◌++◌}
use dockfleet.Core.LogQueue.{stdout, stderr, line, end}
use dockfleet.Core.Stream.{
  Turn, quiet, takes, Run, no_start, other_error, streams, succeeded, stops, retries, nothing_sent,
  run_attempt, stream_container_logs,
}
use dockfleet.Core.Stream.Shown.{ends_in, lines_in, all_shown, stream_shows_lines}
use dockfleet.Core.Stream.Retries.{gives_up_iff}

-- The database refuses the last line.
abbrev some_turns : List Turn
some_turns =
    takes (line stdout "ready  ") true
    ∷ quiet
    ∷ takes (line stderr "  ") true
    ∷ takes (end stdout) true
    ∷ takes (line stderr "slow") false
    ∷ []

abbrev one_run : ℕ → Run
one_run k = streams (some_turns ++ takes (end stderr) true ∷ []) succeeded

stream_shows_lines_example :
    stream_container_logs "dockfleet_web" one_run ≡ (stops, all_shown (lines_in some_turns))
unfolding ends_in
stream_shows_lines_example =
    stream_shows_lines "dockfleet_web" stderr true some_turns one_run
      (tt, (tt, (tt, (tt, (tt, tt))))) refl refl

abbrev no_daemon : ℕ → Run
no_daemon k = no_start (other_error "Cannot connect to the Docker daemon")

gives_up_iff_example :
    ((stream_container_logs "dockfleet_web" no_daemon).0 ≡ retries)
    ↔ ((j : ℕ) → j < 20 → (run_attempt "dockfleet_web" (no_daemon j) nothing_sent).0 ≡ retries)
gives_up_iff_example = gives_up_iff "dockfleet_web" no_daemon
