-- ===== src/Health/Ingest/Atomic.antt =====
-- What a poll has stored when it ends, also where a commit fails.
use dockfleet.Prelude.{
  ℕ, suc, ◌≤◌, String, ◌==◌, Bool, true, false, ◌⊎◌, inl, inr, List, [], ◌∷◌, ◌++◌, Option, ◌≡◌,
  ◌∙◌, refl, sym, ap, arith, length-append, leb, ltb, Bool-cases, Option-cases, rstrip_text,
}
use mathlib.Core.Path.{subst}
use mathlib.Core.List.{append-nil, append_assoc, map-append}
use dockfleet.Core.Exec.{ok, raised}
use dockfleet.Health.Ingest.{
  Entry, Parsed, parse_line, skipped, or_else, Ingest, Ran, batch_limit, commit_batch, add_event,
  keep_line, ingest_line, continue, ingest_lines, dedup,
}
use dockfleet.Health.Ingest.Dedup.{kept}
use dockfleet.Health.Ingest.Held.{
  entries, last_raw, last_raw-append, or_else_same, or_else-last_raw, parsed, Holds,
}

module _ (parse : String → Option ℕ) (commit_works : ℕ → Bool) (cursor_dt : Option ℕ) where
  -- The run stores a first part of the lines, and the cursor is the last time stamp of that part. Either
  -- it is all of them and the run returns, or the run raises because its last commit, the commits
  -- before the run being `first`, failed.
  pub record StoresFrom (first : ℕ) (old : List Entry) (ts : Option String) (lines : List Parsed)
      (r : Ran) : Type 0 where
    pub done : List Parsed
    pub lost : List Parsed
    pub whole : lines ≡ done ++ lost
    pub rows : r.1.stored ≡ old ++ entries done
    pub stamp : r.1.cursor ≡ last_raw ts done
    pub end :
        ((r.0 ≡ ok tt) × (lost ≡ []))
        ⊎ ((r.0 ≡ raised "commit failed")
            × ((n : ℕ) × (first ≤ n) × (r.1.commits ≡ suc n) × (commit_works n ≡ false)))

  abbrev pub Stores : Ingest → List Parsed → Ran → Type 0
  Stores s = StoresFrom s.commits s.stored s.cursor

  -- The state behind a commit that works.
  abbrev committed : Ingest → Ingest
  committed s = record s {
    stored = s.stored ++ s.pending;
    pending = [];
    batch_count = 0;
    cursor = or_else s.last_ts s.cursor;
    commits = suc s.commits;
  }

  cursor_after :
      (s : Ingest) (held : List Parsed)
      → Holds s held
      → or_else s.last_ts s.cursor ≡ last_raw s.cursor held
  cursor_after s held h =
      ap (λ ts. or_else ts s.cursor) h.1
      ∙ or_else-last_raw s.cursor s.cursor held (or_else_same s.cursor)

  committed-Holds : (s : Ingest) (held : List Parsed) → Holds s held → Holds (committed s) []
  unfolding last_raw
  committed-Holds s held h = (refl, h.1 ∙ sym (cursor_after s held h), refl)

  -- What is stored behind a commit stands behind what the commit stored.
  committed-Stores :
      (s : Ingest) (held rest : List Parsed) (r : Ran)
      → Holds s held
      → Stores (committed s) rest r
      → Stores s (held ++ rest) r
  committed-Stores s held rest r h st = record {
    done = held ++ st.done;
    lost = st.lost;
    whole = ap (λ ps. held ++ ps) st.whole ∙ sym (append_assoc held st.done st.lost);
    rows =
        st.rows
        ∙ append_assoc s.stored s.pending (entries st.done)
        ∙ ap (λ es. s.stored ++ (es ++ entries st.done)) h.0
        ∙ ap (λ es. s.stored ++ es) (sym (map-append (λ p. p.entry) held st.done));
    stamp =
        st.stamp
        ∙ ap (λ ts. last_raw ts st.done) (cursor_after s held h)
        ∙ sym (last_raw-append s.cursor held st.done);
    end = elim st.end [
      | inl whole ↦ inl whole
      | inr (failed, (n, low, last, fails)) ↦ inr (failed, (n, omega (arith, low), last, fails))
    ];
  }

  -- A commit that fails stores nothing of what it holds.
  lost-Stores :
      (s : Ingest) (lines : List Parsed) (r : Ran)
      → r.1.stored ≡ s.stored
      → r.1.cursor ≡ s.cursor
      → r.0 ≡ raised "commit failed"
      → r.1.commits ≡ suc s.commits
      → commit_works s.commits ≡ false
      → Stores s lines r
  unfolding last_raw
  lost-Stores s lines r same_rows same_cursor failed counted fails = record {
    done = [];
    lost = lines;
    whole = refl;
    rows = same_rows ∙ sym (append-nil s.stored);
    stamp = same_cursor;
    end = inr (failed, (s.commits, omega arith, counted, fails));
  }

  commit_batch-Stores :
      (s : Ingest) (held rest : List Parsed) (next : Ingest → Ran)
      → Holds s held
      → Stores (committed s) rest (next (committed s))
      → Stores s
          (held ++ rest)
          (continue parse commit_works cursor_dt next (commit_batch parse commit_works cursor_dt s))
  unfolding commit_batch
  commit_batch-Stores s held rest next h st = elim (Bool-cases (commit_works s.commits)) [
    | inl works ↦ rw (works, commit_batch) (committed-Stores s held rest _ h st)
    | inr fails ↦
        rw (fails, commit_batch) (lost-Stores s (held ++ rest) _ refl refl refl refl fails)
  ]

  nothing-Stores : (s : Ingest) → Stores s [] (ok tt, s)
  unfolding last_raw
  nothing-Stores s = record {
    done = [];
    lost = [];
    whole = refl;
    rows = sym (append-nil s.stored);
    stamp = refl;
    end = inl (refl, refl);
  }

  none_held : (s : Ingest) → s.batch_count ≡ 0 → ltb 0 s.batch_count ≡ false
  none_held s e = ground (arith, e)

  some_held : (s : Ingest) (n : ℕ) → s.batch_count ≡ suc n → ltb 0 s.batch_count ≡ true
  some_held s n e = ground (arith, e)

  -- The commit behind the loop.
  last-Stores :
      (s : Ingest) (held : List Parsed)
      → Holds s held
      → Stores s held (ingest_lines parse commit_works cursor_dt [] s)
  unfolding ingest_lines last_raw commit_batch
  last-Stores s [] h = rw (none_held s h.2, ingest_lines) (nothing-Stores s)
  last-Stores s (p ∷ held) h =
      rw (some_held s _ h.2, ingest_lines)
        (elim (Bool-cases (commit_works s.commits)) [
          | inl works ↦
              rw (works, commit_batch)
                (subst (λ ps. Stores s ps (ok tt, committed s)) (append-nil (p ∷ held))
                  (committed-Stores s (p ∷ held) [] _ h (nothing-Stores (committed s))))
          | inr fails ↦
              rw (fails, commit_batch) (lost-Stores s (p ∷ held) _ refl refl refl refl fails)
        ])

  added-Holds :
      (p : Parsed) (s : Ingest) (held : List Parsed)
      → Holds s held
      → Holds (add_event parse commit_works cursor_dt p s) (held ++ p ∷ [])
  unfolding add_event last_raw
  added-Holds p s held h = (
    ap (λ es. es ++ p.entry ∷ []) h.0 ∙ sym (map-append (λ q. q.entry) held (p ∷ [])),
    ap (or_else p.raw_ts) h.1 ∙ sym (last_raw-append s.cursor held (p ∷ [])),
    omega (arith, h.2, length-append held (p ∷ [])),
  )

  reassociate :
      (s : Ingest) (held : List Parsed) (p : Parsed) (rest : List Parsed) (r : Ran)
      → Stores s ((held ++ p ∷ []) ++ rest) r
      → Stores s (held ++ p ∷ rest) r
  reassociate s held p rest r st = subst (λ ps. Stores s ps r) (append_assoc held (p ∷ []) rest) st

  -- A line that is kept, when the rest of the run is known from both states behind it.
  keep_line-Stores :
      (p : Parsed) (s : Ingest) (held rest : List Parsed) (next : Ingest → Ran)
      → Holds s held
      → ((s' : Ingest) (h' : List Parsed)
          → s'.records ≡ s.records
          → Holds s' h'
          → Stores s' (h' ++ rest) (next s'))
      → Stores s
          (held ++ p ∷ rest)
          (continue parse commit_works cursor_dt next (keep_line parse commit_works cursor_dt p s))
  unfolding keep_line add_event
  keep_line-Stores p s held rest next h go =
      let s' = add_event parse commit_works cursor_dt p s in
      let h' = added-Holds p s held h in
      elim (Bool-cases (leb batch_limit (suc s.batch_count))) [
        | inl full ↦
            rw (full, keep_line)
              (reassociate s held p rest _ (
                commit_batch-Stores s' (held ++ p ∷ []) rest next h'
                  (go (committed s') [] refl (committed-Holds s' (held ++ p ∷ []) h'))))
        | inr small ↦
            rw (small, keep_line) (reassociate s held p rest _ (go s' (held ++ p ∷ []) refl h'))
      ]

  -- A turn of the loop behind the check for blank lines.
  dedup-Stores :
      (p : Parsed) (s : Ingest) (held ps : List Parsed) (next : Ingest → Ran)
      → Holds s held
      → ((s' : Ingest) (h' : List Parsed)
          → Holds s' h'
          → Stores s' (h' ++ kept cursor_dt ps s'.records) (next s'))
      → Stores s (held ++ kept cursor_dt (p ∷ ps) s.records) (
          continue parse commit_works cursor_dt next
            (dedup parse commit_works cursor_dt p s (skipped cursor_dt p s.records)))
  unfolding kept dedup
  dedup-Stores p s held ps next h go = elim (Option-cases (skipped cursor_dt p s.records)) [
    | inl fresh ↦
        rw (fresh, kept)
          (keep_line-Stores p s held (kept cursor_dt ps s.records) next h
            (λ s' h' same holds. rw (sym same) (go s' h' holds)))
    | inr (left, again) ↦ rw (again, kept) (go (record s { records = left }) held h)
  ]

  -- The whole loop, from any state.
  pub ingest_lines-Stores :
      (lines : List (ℕ × String)) (s : Ingest) (held : List Parsed)
      → Holds s held
      → Stores s
          (held ++ kept cursor_dt (parsed parse lines) s.records)
          (ingest_lines parse commit_works cursor_dt lines s)
  unfolding ingest_lines ingest_line parsed kept
  ingest_lines-Stores [] s held h =
      subst (λ ps. Stores s ps (ingest_lines parse commit_works cursor_dt [] s))
        (sym (append-nil held)) (last-Stores s held h)
  ingest_lines-Stores ((now, line) ∷ lines) s held h = elim (Bool-cases (rstrip_text line == "")) [
    | inl blank ↦ rw (blank, ingest_lines, parsed, ingest_line) (ingest_lines-Stores lines s held h)
    | inr shown ↦
        rw (shown, ingest_lines, parsed, ingest_line)
          (dedup-Stores (parse_line parse now (rstrip_text line)) s held (parsed parse lines)
            (ingest_lines parse commit_works cursor_dt lines) h (ingest_lines-Stores lines))
  ]

  -- Without a failure all lines are stored.
  pub all_stored :
      (first : ℕ) (old : List Entry) (ts : Option String) (lines : List Parsed) (r : Ran)
      → ((n : ℕ) → commit_works n ≡ true)
      → StoresFrom first old ts lines r
      → r.1.stored ≡ old ++ entries lines
  all_stored first old ts lines r works st = elim st.end [
    | inl (returned, none_lost) ↦
        st.rows
        ∙ ap (λ ps. old ++ entries ps)
            (sym (st.whole ∙ ap (λ ps. st.done ++ ps) none_lost ∙ append-nil st.done))
    | inr (failed, (n, low, last, fails)) ↦ ground (arith, works n, fails)
  ]
