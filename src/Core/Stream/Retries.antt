-- ===== src/Core/Stream/Retries.antt =====
-- When a stream gives up.
use dockfleet.Prelude.{
  ℕ, Bool, zero, suc, ◌+◌, ◌≤◌, ◌<◌, String, ◌==◌, List, [], ◌∷◌, rstrip_text, ◌≡◌, ◌↔◌, ◌∙◌, refl,
  ap, arith, Bool-cases, inl, inr, eqb, eqb_iff,
}
use dockfleet.Core.LogQueue as Queue
use dockfleet.Core.LogQueue.{Item, stdout, stderr, line, failure, end}
use dockfleet.Core.Stream.{
  Turn, left, drained, quiet, takes, Attempt, show_line, take_line, Ending, returned, closed,
  unfinished, consume, nothing_sent, new_attempt, Run, no_start, streams, no_binary, no_permission,
  other_error, Exit, succeeded, exited_with, Next, stops, retries, waits, Trouble, not_found,
  denied, unreachable, unknown, on_trouble, on_problem, on_exit, on_ending, run_attempt, attempts,
  go_on, stream_container_logs, on_output, output_of,
}

module _ (container : String) where
  take_line-buffer :
      (stream : Queue.Stream) (payload : String) (stores : Bool) (a b : Attempt)
      → a.stderr_buffer ≡ b.stderr_buffer
      → (take_line stream payload stores a).stderr_buffer
        ≡ (take_line stream payload stores b).stderr_buffer
  unfolding take_line show_line
  take_line-buffer stream payload stores a b h = elim (Bool-cases (rstrip_text payload == "")) [
    | inl blank ↦ rw (blank, take_line) h
    | inr text ↦ rw (text, take_line) (rw h refl)
  ]

  -- The way the loop ends does not hang on what was sent before.
  consume-alike :
      (turns : List Turn) (active : ℕ) (a b : Attempt)
      → a.stderr_buffer ≡ b.stderr_buffer
      → ((consume container turns active a).0 ≡ (consume container turns active b).0)
        × ((consume container turns active a).1.stderr_buffer
            ≡ (consume container turns active b).1.stderr_buffer)
  unfolding consume
  consume-alike [] zero a b h = (refl, h)
  consume-alike (turn ∷ turns) zero a b h = (refl, h)
  consume-alike [] (suc active) a b h = (refl, h)
  consume-alike (left ∷ turns) (suc active) a b h = (refl, h)
  consume-alike (drained ∷ turns) (suc active) a b h = (refl, h)
  consume-alike (quiet ∷ turns) (suc active) a b h = consume-alike turns (suc active) a b h
  consume-alike (takes (line s payload) stores ∷ turns) (suc active) a b h =
      consume-alike turns (suc active) (take_line s payload stores a) (take_line s payload stores b)
        (take_line-buffer s payload stores a b h)
  consume-alike (takes (failure s e) stores ∷ turns) (suc active) a b h = (refl, h)
  consume-alike (takes (end s) stores ∷ turns) (suc active) a b h = consume-alike turns active a b h

  on_trouble-alike :
      (t : Trouble) (shown : String) (a b : Attempt)
      → (on_trouble container t shown a).0 ≡ (on_trouble container t shown b).0
  unfolding on_trouble
  on_trouble-alike not_found shown a b = refl
  on_trouble-alike denied shown a b = refl
  on_trouble-alike unreachable shown a b = refl
  on_trouble-alike unknown shown a b = refl

  on_output-alike :
      (output code : String) (a b : Attempt)
      → (on_output container output code a).0 ≡ (on_output container output code b).0
  unfolding on_output
  on_output-alike output code a b = on_trouble-alike _ _ a b

  on_ending-alike :
      (exit : Exit) (e : Ending) (a b : Attempt)
      → a.stderr_buffer ≡ b.stderr_buffer
      → (on_ending container exit (e, a)).0 ≡ (on_ending container exit (e, b)).0
  unfolding on_exit on_ending
  on_ending-alike exit returned a b h = refl
  on_ending-alike exit unfinished a b h = refl
  on_ending-alike succeeded closed a b h = refl
  on_ending-alike (exited_with code rest) closed a b h =
      ap (λ buffer. (on_output container (output_of buffer rest) code a).0) h
      ∙ on_output-alike (output_of b.stderr_buffer rest) code a b

  run-alike :
      (run : Run) (a b : Attempt)
      → (run_attempt container run (new_attempt a)).0
        ≡ (run_attempt container run (new_attempt b)).0
  unfolding run_attempt on_problem
  run-alike (no_start no_binary) a b = refl
  run-alike (no_start no_permission) a b = refl
  run-alike (no_start (other_error e)) a b = on_trouble-alike _ _ (new_attempt a) (new_attempt b)
  run-alike (streams turns exit) a b =
      let (same, buffers) = consume-alike turns 2 (new_attempt a) (new_attempt b) refl in
      ap (λ e. (on_ending container exit (e, (consume container turns 2 (new_attempt a)).1)).0) same
      ∙ on_ending-alike exit (consume container turns 2 (new_attempt b)).0 _ _ buffers

  retries_of : Run → Next
  retries_of run = (run_attempt container run nothing_sent).0

  -- The attempts from the number `k` on, `n` of them.
  abbrev AllRetry : ℕ → ℕ → (ℕ → Run) → Type 0
  AllRetry n k runs = (j : ℕ) → k ≤ j → j < k + n → retries_of (runs j) ≡ retries

  go_on_stops :
      (again : Attempt → Next × Attempt) (r : Next × Attempt)
      → (go_on container again r).0 ≡ retries
      → (r.0 ≡ retries) × ((again r.1).0 ≡ retries)
  go_on_stops again (stops, a) h = absurd (ground (arith, h))
  go_on_stops again (waits, a) h = absurd (ground (arith, h))
  go_on_stops again (retries, a) h = (refl, h)

  go_on_again :
      (again : Attempt → Next × Attempt) (r : Next × Attempt)
      → r.0 ≡ retries
      → ((a : Attempt) → (again a).0 ≡ retries)
      → (go_on container again r).0 ≡ retries
  go_on_again again (stops, a) e h = absurd (ground (arith, e))
  go_on_again again (waits, a) e h = absurd (ground (arith, e))
  go_on_again again (retries, a) e h = h a

  gives_up :
      (n : ℕ) (runs : ℕ → Run) (k : ℕ) (a : Attempt)
      → AllRetry n k runs
      → (attempts container n runs k a).0 ≡ retries
  unfolding attempts retries_of
  gives_up zero runs k a h = refl
  gives_up (suc n) runs k a h =
      go_on_again _ (run_attempt container (runs k) (new_attempt a))
        (run-alike (runs k) a nothing_sent ∙ h k (omega arith) (omega arith))
        (λ b. gives_up n runs (k + 1) b (λ j low high. h j (omega arith) (omega arith)))

  gave_up :
      (n : ℕ) (runs : ℕ → Run) (k : ℕ) (a : Attempt)
      → (attempts container n runs k a).0 ≡ retries
      → AllRetry n k runs
  unfolding attempts retries_of
  gave_up zero runs k a h j low high = absurd (omega arith)
  gave_up (suc n) runs k a h j low high =
      let (first, rest) = go_on_stops _ (run_attempt container (runs k) (new_attempt a)) h in
      elim (Bool-cases (eqb j k)) [
        | inl same ↦
            ap (λ i. retries_of (runs i)) ((eqb_iff j k).0 same)
            ∙ run-alike (runs k) nothing_sent a
            ∙ first
        | inr other ↦ gave_up n runs (k + 1) _ rest j (ground (arith, other)) (omega arith)
      ]

-- A stream uses up its twenty attempts exactly if each of them, taken by itself, says to try again.
pub gives_up_iff :
    (container : String) (runs : ℕ → Run)
    → ((stream_container_logs container runs).0 ≡ retries)
      ↔ ((j : ℕ) → j < 20 → (run_attempt container (runs j) nothing_sent).0 ≡ retries)
unfolding stream_container_logs retries_of
gives_up_iff container runs = (
  λ h j below. gave_up container 20 runs 0 nothing_sent h j (omega arith) (omega arith),
  λ h. gives_up container 20 runs 0 nothing_sent (λ j low high. h j (omega arith)),
)
