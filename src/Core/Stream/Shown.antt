-- ===== src/Core/Stream/Shown.antt =====
-- What a stream shows of the lines that it meets, until both readers have ended.
use dockfleet.Prelude.{
  ℕ, suc, String, Bool, true, false, ◌==◌, List, [], ◌∷◌, ◌++◌, map, if◌then◌else◌, rstrip_text,
  All, ◌≡◌, ◌∙◌, refl, sym, ap, arith, Bool-cases, inl, inr,
}
use mathlib.Core.Path.{subst}
use mathlib.Core.List.{append_assoc, append-nil, map-append}
use dockfleet.Core.LogQueue as Queue
use dockfleet.Core.LogQueue.{Item, stdout, stderr, line, failure, end}
use dockfleet.Core.Stream.Buffer.{last_hundred, buffered-last_hundred}
use dockfleet.Core.Stream.{
  Turn, left, drained, quiet, takes, Attempt, event, is_stderr, buffered, show_line, take_line,
  closed, consume, nothing_sent, Run, streams, succeeded, stops, new_attempt, run_attempt, on_exit,
  on_ending, attempts, stream_container_logs,
}

-- Neither the client leaves nor a reader fails.
abbrev pub Calm : Turn → Type 0
Calm left = ⊥
Calm drained = ⊥
Calm quiet = Unit
Calm (takes (line stream payload) stores) = Unit
Calm (takes (failure stream e) stores) = ⊥
Calm (takes (end stream) stores) = Unit

-- The ends of readers among the turns.
unfoldable pub ends_in : List Turn → ℕ
ends_in [] = 0
ends_in (takes (end stream) stores ∷ turns) = suc (ends_in turns)
ends_in (turn ∷ turns) = ends_in turns

-- A line, with its stream and whether its store works.
abbrev pub Line : Type 0
Line = (Queue.Stream × String) × Bool

-- A line without the white space at its end, unless it is empty then.
unfoldable pub shown_line : Queue.Stream → String → Bool → List Line
shown_line stream payload stores =
    if rstrip_text payload == "" then [] else ((stream, rstrip_text payload), stores) ∷ []

-- The lines among the turns, without the white space at their ends, less the empty ones.
unfoldable pub lines_in : List Turn → List Line
unfolding shown_line
lines_in [] = []
lines_in (takes (line stream payload) stores ∷ turns) =
    shown_line stream payload stores ++ lines_in turns
lines_in (turn ∷ turns) = lines_in turns

unfoldable pub stderr_texts : List Line → List String
stderr_texts [] = []
stderr_texts (((stdout, text), stores) ∷ ls) = stderr_texts ls
stderr_texts (((stderr, text), stores) ∷ ls) = text ∷ stderr_texts ls

-- The lines whose store works.
unfoldable pub persisted : List Line → List (Queue.Stream × String)
persisted [] = []
persisted ((l, true) ∷ ls) = l ∷ persisted ls
persisted ((l, false) ∷ ls) = persisted ls

show_all : List Line → Attempt → Attempt
unfolding show_line
show_all [] a = a
show_all (((stream, text), stores) ∷ ls) a = show_all ls (show_line stream text stores a)

show_all-append :
    (ls ks : List Line) (a : Attempt) → show_all (ls ++ ks) a ≡ show_all ks (show_all ls a)
unfolding show_all
show_all-append [] ks a = refl
show_all-append (((stream, text), stores) ∷ ls) ks a =
    show_all-append ls ks (show_line stream text stores a)

taken :
    (stream : Queue.Stream) (payload : String) (stores : Bool) (a : Attempt)
    → take_line stream payload stores a ≡ show_all (shown_line stream payload stores) a
unfolding take_line shown_line show_all
taken stream payload stores a = elim (Bool-cases (rstrip_text payload == "")) [
  | inl blank ↦ rw (blank, take_line, shown_line) refl
  | inr text ↦ rw (text, take_line, shown_line) refl
]

consume-Calm :
    (container : String) (stream : Queue.Stream) (stores : Bool) (turns : List Turn) (a : Attempt)
    → All Calm turns
    → consume container (turns ++ takes (end stream) stores ∷ []) (suc (ends_in turns)) a
      ≡ (closed, show_all (lines_in turns) a)
unfolding consume ends_in lines_in show_all
consume-Calm container stream stores [] a calm = refl
consume-Calm container stream stores (quiet ∷ turns) a calm =
    consume-Calm container stream stores turns a calm.1
consume-Calm container stream stores (takes (end other) any ∷ turns) a calm =
    consume-Calm container stream stores turns a calm.1
consume-Calm container stream stores (takes (line s payload) works ∷ turns) a calm =
    consume-Calm container stream stores turns (take_line s payload works a) calm.1
    ∙ ap (λ b. (closed, show_all (lines_in turns) b)) (taken s payload works a)
    ∙ ap (λ b. (closed, b)) (sym (show_all-append (shown_line s payload works) (lines_in turns) a))
consume-Calm container stream stores (takes (failure s e) any ∷ turns) a calm = absurd calm.0
consume-Calm container stream stores (left ∷ turns) a calm = absurd calm.0
consume-Calm container stream stores (drained ∷ turns) a calm = absurd calm.0

stderr_texts-append :
    (ls ks : List Line) → stderr_texts (ls ++ ks) ≡ stderr_texts ls ++ stderr_texts ks
unfolding stderr_texts
stderr_texts-append [] ks = refl
stderr_texts-append (((stdout, text), stores) ∷ ls) ks = stderr_texts-append ls ks
stderr_texts-append (((stderr, text), stores) ∷ ls) ks = ap (◌∷◌ text) (stderr_texts-append ls ks)

persisted-append : (ls ks : List Line) → persisted (ls ++ ks) ≡ persisted ls ++ persisted ks
unfolding persisted
persisted-append [] ks = refl
persisted-append ((l, true) ∷ ls) ks = ap (◌∷◌ l) (persisted-append ls ks)
persisted-append ((l, false) ∷ ls) ks = persisted-append ls ks

-- The attempt has shown these lines.
record HasShown (ls : List Line) (a : Attempt) : Type 0 where
  sends : a.sent ≡ map (λ l. event l.0.1) ls
  stores : a.stored ≡ persisted ls
  buffers : a.stderr_buffer ≡ last_hundred (stderr_texts ls)

buffers_line :
    (stream : Queue.Stream) (text : String) (stores : Bool) (ls : List Line) (buffer : List String)
    → buffer ≡ last_hundred (stderr_texts ls)
    → (if is_stderr stream then buffered buffer text else buffer)
      ≡ last_hundred (stderr_texts (ls ++ ((stream, text), stores) ∷ []))
unfolding stderr_texts
buffers_line stdout text stores ls buffer h =
    h
    ∙ ap last_hundred (sym (stderr_texts-append ls (((stdout, text), stores) ∷ []) ∙ append-nil _))
buffers_line stderr text stores ls buffer h =
    ap (λ b. buffered b text) h
    ∙ buffered-last_hundred (stderr_texts ls) text
    ∙ ap last_hundred (sym (stderr_texts-append ls (((stderr, text), stores) ∷ [])))

stores_line :
    (l : Queue.Stream × String) (stores : Bool) (ls : List Line)
    (stored : List (Queue.Stream × String))
    → stored ≡ persisted ls
    → (if stores then stored ++ l ∷ [] else stored) ≡ persisted (ls ++ (l, stores) ∷ [])
unfolding persisted
stores_line l true ls stored h =
    ap (λ k. k ++ l ∷ []) h ∙ sym (persisted-append ls ((l, true) ∷ []))
stores_line l false ls stored h =
    h ∙ sym (persisted-append ls ((l, false) ∷ []) ∙ append-nil (persisted ls))

show_line-HasShown :
    (stream : Queue.Stream) (text : String) (stores : Bool) (ls : List Line) (a : Attempt)
    → HasShown ls a
    → HasShown (ls ++ ((stream, text), stores) ∷ []) (show_line stream text stores a)
unfolding show_line
show_line-HasShown stream text stores ls a h = record {
  sends =
      ap (λ l. l ++ event text ∷ []) h.sends
      ∙ sym (map-append (λ l. event l.0.1) ls (((stream, text), stores) ∷ []));
  stores = stores_line (stream, text) stores ls a.stored h.stores;
  buffers = buffers_line stream text stores ls a.stderr_buffer h.buffers;
}

show_all-HasShown :
    (ks ls : List Line) (a : Attempt) → HasShown ls a → HasShown (ls ++ ks) (show_all ks a)
unfolding show_all
show_all-HasShown [] ls a h = subst (λ k. HasShown k a) (sym (append-nil ls)) h
show_all-HasShown (((stream, text), stores) ∷ ks) ls a h =
    subst (λ k. HasShown k (show_all ks (show_line stream text stores a)))
      (append_assoc ls (((stream, text), stores) ∷ []) ks)
      (show_all-HasShown ks (ls ++ ((stream, text), stores) ∷ []) (show_line stream text stores a)
        (show_line-HasShown stream text stores ls a h))

abbrev pub all_shown : List Line → Attempt
all_shown ls = record {
  sent = map (λ l. event l.0.1) ls;
  stored = persisted ls;
  stderr_buffer = last_hundred (stderr_texts ls);
}

shown_attempt : (ls : List Line) (a : Attempt) → HasShown ls a → a ≡ all_shown ls
shown_attempt ls a h = ground (arith, h.sends, h.stores, h.buffers)

attempts-first :
    (container : String) (n : ℕ) (runs : ℕ → Run) (k : ℕ) (a b : Attempt)
    → run_attempt container (runs k) (new_attempt a) ≡ (stops, b)
    → attempts container (suc n) runs k a ≡ (stops, b)
unfolding attempts
attempts-first container n runs k a b h = rw (h, attempts) refl

run_attempt-Calm :
    (container : String) (stream : Queue.Stream) (stores : Bool) (turns : List Turn)
    → All Calm turns
    → ends_in turns ≡ 1
    → run_attempt container
        (streams (turns ++ takes (end stream) stores ∷ []) succeeded)
        nothing_sent
      ≡ (stops, all_shown (lines_in turns))
unfolding run_attempt on_exit on_ending stderr_texts persisted
run_attempt-Calm container stream stores turns calm one =
    let shown = consume-Calm container stream stores turns nothing_sent calm in
    let whole = shown_attempt (lines_in turns) (show_all (lines_in turns) nothing_sent) (
      show_all-HasShown (lines_in turns) [] nothing_sent
        (record { sends = refl; stores = refl; buffers = refl })) in
    ap (on_ending container succeeded) (
      ap
        (λ active.
          consume container (turns ++ takes (end stream) stores ∷ []) (suc active) nothing_sent)
        (sym one)
      ∙ shown)
    ∙ ap (λ b. (stops, b)) whole

-- When the first attempt starts, no reader fails, the client stays, and `docker logs` ends well: once
-- one reader has ended before the last turn and the other ends in it, the stream returns, and has sent
-- as an event every line of the turns, in their order, without the white space at its end, less those
-- that are empty then, also the lines whose store fails. Of these lines exactly those whose store works
-- are stored, in their order, and the buffer has the last hundred of those from stderr.
pub stream_shows_lines :
    (container : String) (stream : Queue.Stream) (stores : Bool) (turns : List Turn)
    (runs : ℕ → Run)
    → All Calm turns
    → ends_in turns ≡ 1
    → runs 0 ≡ streams (turns ++ takes (end stream) stores ∷ []) succeeded
    → stream_container_logs container runs ≡ (stops, all_shown (lines_in turns))
unfolding stream_container_logs
stream_shows_lines container stream stores turns runs calm one first =
    attempts-first container 19 runs 0 nothing_sent (all_shown (lines_in turns)) (
      ap (λ r. run_attempt container r nothing_sent) first
      ∙ run_attempt-Calm container stream stores turns calm one)
