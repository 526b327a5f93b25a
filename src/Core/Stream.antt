-- ===== src/Core/Stream.antt =====
-- stream_container_logs in dockfleet/core/logs.py, from the queue on: the loop over the items, the end of
-- `docker logs`, and the attempts. What the loop meets at each turn, and how each attempt begins and
-- ends, is given. The lines that it yields are texts of server-sent events.
pub mod Buffer
pub mod Shown
pub mod Retries
use dockfleet.Prelude.{
  ℕ, zero, suc, ◌+◌, String, ◌==◌, cat, Bool, true, false, not, ◌&&◌, ◌||◌, List, [], ◌∷◌, ◌++◌,
  Option, none, some, if◌then◌else◌, eqb, ltb, length, codes, contains, lower, rstrip_text,
  strip_text,
}
use dockfleet.Core.LogQueue as Queue
use dockfleet.Core.LogQueue.{Item, stdout, stderr, line, failure, end}

-- A turn of the loop: the client has left, both readers are done and the queue is empty, nothing came
-- within the timeout, or an item, with whether store_log_line_in_db works on its line.
pub data Turn : Type 0 where
  left drained quiet : Turn
  takes : Item → Bool → Turn

-- The state of an attempt: what was yielded, the lines that were stored, and `stderr_buffer`.
pub record Attempt : Type 0 where
  pub sent : List String
  pub stored : List (Queue.Stream × String)
  pub stderr_buffer : List String

abbrev pub event : String → String
event text = cat "data: " (cat text "\n\n")

abbrev pub nothing_sent : Attempt
nothing_sent = record { sent = []; stored = []; stderr_buffer = [] }

abbrev pub max_retries : ℕ
max_retries = 20

-- `stderr_buffer = []`
abbrev pub new_attempt : Attempt → Attempt
new_attempt a = record a { stderr_buffer = [] }

abbrev pub is_stderr : Queue.Stream → Bool
is_stderr stdout = false
is_stderr stderr = true

abbrev pub without_first : List String → List String
without_first [] = []
without_first (head ∷ rest) = rest

-- `append`, and `pop(0)` behind a hundred lines
unfoldable pub buffered : List String → String → List String
buffered buffer text =
    if ltb 100 (length (buffer ++ text ∷ []))
    then without_first (buffer ++ text ∷ [])
    else buffer ++ text ∷ []

-- A line that is not empty: the exceptions of the store are caught.
unfoldable pub show_line : Queue.Stream → String → Bool → Attempt → Attempt
unfolding buffered
show_line stream cleaned stores a = record {
  sent = a.sent ++ event cleaned ∷ [];
  stored = if stores then a.stored ++ (stream, cleaned) ∷ [] else a.stored;
  stderr_buffer = if is_stderr stream then buffered a.stderr_buffer cleaned else a.stderr_buffer;
}

unfoldable pub take_line : Queue.Stream → String → Bool → Attempt → Attempt
unfolding show_line rstrip_text
take_line stream payload stores a =
    let cleaned = rstrip_text payload in
    if cleaned == "" then a else show_line stream cleaned stores a

abbrev pub yields : String → Attempt → Attempt
yields text a = record a { sent = a.sent ++ event text ∷ [] }

-- How the loop ended: the generator returned, it broke off or saw both ends, or the given turns
-- are over.
pub data Ending : Type 0 where
  returned closed unfinished : Ending

abbrev pub quoted : String → String
quoted name = cat "'" (cat name "'")

-- What the text of an error says.
pub data Trouble : Type 0 where
  not_found denied unreachable unknown : Trouble

abbrev pub says : String → List ℕ → Bool
unfolding contains
says part text = contains (codes part) text

-- The tests on an error in small letters; those on stderr know one sentence more.
unfoldable pub trouble_of : Bool → List ℕ → Trouble
unfolding says
trouble_of of_stderr text =
    if says "no such container" text || says "no such image" text
    then not_found
    else if says "permission denied" text || says "access is denied" text
    then denied
    else if says "connection refused" text
        || says "cannot connect" text
        || (of_stderr && says "is the docker daemon running" text)
    then unreachable
    else unknown

-- The exceptions that the attempt catches.
pub data Problem : Type 0 where
  no_binary no_permission : Problem
  other_error : String → Problem

-- How `docker logs` ended: well, or with another code, given as text, and what can still be read of
-- its stderr.
pub data Exit : Type 0 where
  succeeded : Exit
  exited_with : String → String → Exit

-- An attempt, as the world has it: it does not start, or it meets these turns and ends so.
pub data Run : Type 0 where
  no_start : Problem → Run
  streams : List Turn → Exit → Run

-- Whether the generator returns, tries again, or still waits for its next turn.
pub data Next : Type 0 where
  stops retries waits : Next

-- `"\n".join(lines)`
unfoldable pub joined : List String → String
joined [] = ""
joined (text ∷ []) = text
joined (text ∷ next ∷ texts) = cat text (cat "\n" (joined (next ∷ texts)))

abbrev pub or_else : String → String → String
or_else first second = if first == "" then second else first

-- `stderr_output`
unfoldable pub output_of : List String → String → String
unfolding joined strip_text
output_of buffer rest = or_else (strip_text (joined buffer)) (strip_text rest)

module _ (container : String) where
  abbrev pub reader_error : String → String
  reader_error payload =
      cat "[dockfleet] Error reading logs for " (cat (quoted container) (cat ": " payload))

  -- The loop, with `active_streams`.
  unfoldable pub consume : List Turn → ℕ → Attempt → Ending × Attempt
  unfolding take_line
  consume turns zero a = (closed, a)
  consume [] (suc active) a = (unfinished, a)
  consume (left ∷ turns) (suc active) a = (returned, a)
  consume (drained ∷ turns) (suc active) a = (closed, a)
  consume (quiet ∷ turns) (suc active) a = consume turns (suc active) a
  consume (takes (line stream payload) stores ∷ turns) (suc active) a =
      consume turns (suc active) (take_line stream payload stores a)
  consume (takes (failure stream e) stores ∷ turns) (suc active) a =
      (returned, yields (reader_error e) a)
  consume (takes (end stream) stores ∷ turns) (suc active) a = consume turns active a

  abbrev pub missing_container : String
  missing_container = cat "[dockfleet] Container " (cat (quoted container) " not found")

  abbrev pub no_access : String
  no_access = cat "[dockfleet] Permission denied accessing logs for " (quoted container)

  -- The branches on the text of an error, where `shown` is what the last one shows.
  unfoldable pub on_trouble : Trouble → String → Attempt → Next × Attempt
  on_trouble not_found shown a = (stops, yields missing_container a)
  on_trouble denied shown a = (stops, yields no_access a)
  on_trouble unreachable shown a = (retries, a)
  on_trouble unknown shown a = (stops, yields (cat "[dockfleet] Error streaming logs: " shown) a)

  unfoldable pub on_problem : Problem → Attempt → Next × Attempt
  unfolding on_trouble trouble_of lower
  on_problem no_binary a = (stops, yields "[dockfleet] Docker is not installed or not in PATH" a)
  on_problem no_permission a = (stops, yields no_access a)
  on_problem (other_error e) a = on_trouble (trouble_of false (lower (codes e))) e a

  unfoldable pub on_output : String → String → Attempt → Next × Attempt
  unfolding on_trouble trouble_of lower
  on_output output code a =
      on_trouble (trouble_of true (lower (codes output)))
        (or_else output (cat "exited with code " code)) a

  -- The lines behind the wait for the process.
  unfoldable pub on_exit : Exit → Attempt → Next × Attempt
  unfolding on_output output_of
  on_exit succeeded a = (stops, a)
  on_exit (exited_with code rest) a = on_output (output_of a.stderr_buffer rest) code a

  abbrev pub on_ending : Exit → Ending × Attempt → Next × Attempt
  unfolding on_exit
  on_ending exit (returned, a) = (stops, a)
  on_ending exit (unfinished, a) = (waits, a)
  on_ending exit (closed, a) = on_exit exit a

  unfoldable pub run_attempt : Run → Attempt → Next × Attempt
  unfolding on_problem on_exit on_ending consume
  run_attempt (no_start problem) a = on_problem problem a
  run_attempt (streams turns exit) a = on_ending exit (consume turns 2 a)

  abbrev pub go_on : (Attempt → Next × Attempt) → Next × Attempt → Next × Attempt
  go_on again (stops, a) = (stops, a)
  go_on again (waits, a) = (waits, a)
  go_on again (retries, a) = again a

  -- The loop over the attempts, from the one of a number on, and the line behind it.
  unfoldable pub attempts : ℕ → (ℕ → Run) → ℕ → Attempt → Next × Attempt
  unfolding run_attempt
  attempts zero runs k a =
      (retries, yields "[dockfleet] Max retries exhausted - container may still be starting" a)
  attempts (suc n) runs k a = go_on (attempts n runs (k + 1)) (run_attempt (runs k) (new_attempt a))

  unfoldable pub stream_container_logs : (ℕ → Run) → Next × Attempt
  unfolding attempts
  stream_container_logs runs = attempts max_retries runs 0 nothing_sent
