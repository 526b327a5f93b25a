-- ===== src/Health/Logs/RoundTrip.antt =====
-- The downloads of the log table, whole: the text lines, and the CSV as a reader has it.
use dockfleet.Prelude.{
  ℕ, zero, suc, ◌≤◌, ◌≡◌, refl, sym, ap, ◌∙◌, String, List, [], ◌∷◌, ◌++◌, map, none, Option,
  length, arith, Pairs, All, Sorted, filter, filter_keeps, length-filter_le, length-sort_by, true,
}
use mathlib.Core.List.{append-nil, append_assoc, map-append}
use dockfleet.Health.Logs.{
  LogEvent, newer, behind, matching, of_service, has_text, query_logs, Cursor,
}
use dockfleet.Health.Logs.Order.{Apart}
use dockfleet.Health.Logs.Export.{
  newline, join, concat, csv_field, csv_header, csv_line, csv_chunk, columns, text_line, pages,
  next_page, iter_logs_as_text, iter_logs_as_csv,
}
use dockfleet.Health.Logs.Pages.{listing, listing-Sorted, pages-concat, pointwise-All}
use dockfleet.Health.Logs.Csv.{
  Reader, before_field, scan, scan-append, scan-csv_field, comma_after, newline_after, read_csv,
  step, header_columns, scan-header,
}

-- Two parts of a text, each with what ends it.
scan-parts :
    (a b c d : List ℕ) (r : Reader) → scan (a ++ b ++ c ++ d) r ≡ scan (c ++ d) (scan (a ++ b) r)
scan-parts a b c d r =
    ap (λ s. scan s r) (append_assoc (a ++ b) c d) ∙ scan-append (a ++ b) (c ++ d) r

module _ (rows : List (List (List ℕ))) where
  scan-field :
      (fields : List (List ℕ)) (t : List ℕ)
      → scan (csv_field t ++ b',' ∷ []) (before_field fields rows)
        ≡ before_field (fields ++ t ∷ []) rows
  unfolding scan
  scan-field fields t =
      scan-append (csv_field t) (b',' ∷ []) _
      ∙ ap (step b',') (scan-csv_field fields rows t)
      ∙ comma_after fields rows t

  -- The reader has the fields of a row as they were before they were escaped.
  scan-row :
      (fields : List (List ℕ)) (t : List ℕ) (ts : List (List ℕ))
      → scan (join (b',' ∷ []) (map csv_field (t ∷ ts)) ++ newline) (before_field fields rows)
        ≡ before_field [] (rows ++ (fields ++ t ∷ ts) ∷ [])
  unfolding scan join
  scan-row fields t [] =
      scan-append (csv_field t) newline _
      ∙ ap (step b'\n') (scan-csv_field fields rows t)
      ∙ newline_after fields rows t
  scan-row fields t (u ∷ us) =
      scan-parts (csv_field t) (b',' ∷ []) (join (b',' ∷ []) (map csv_field (u ∷ us))) newline _
      ∙ ap (scan (join (b',' ∷ []) (map csv_field (u ∷ us)) ++ newline)) (scan-field fields t)
      ∙ scan-row (fields ++ t ∷ []) u us
      ∙ ap (λ row. before_field [] (rows ++ row ∷ [])) (append_assoc fields (t ∷ []) (u ∷ us))

-- A page that the loop yields is not empty.
data NonEmpty : List LogEvent → Type 0 where
  some_rows : (e : LogEvent) (es : List LogEvent) → NonEmpty (e ∷ es)

module _ (name q : Option String) (batch_size : ℕ) (logs : List LogEvent) where
  next_page-NonEmpty :
      (later : Cursor → List (List LogEvent)) (es : List LogEvent)
      → ((c : Cursor) → All NonEmpty (later c))
      → All NonEmpty (next_page name q batch_size logs later es)
  next_page-NonEmpty later [] h = tt
  next_page-NonEmpty later (e ∷ es) h = (some_rows e es, h _)

  pages-NonEmpty :
      (fuel : ℕ) (cursor : Cursor) → All NonEmpty (pages name q batch_size logs fuel cursor)
  unfolding pages
  pages-NonEmpty zero cursor = tt
  pages-NonEmpty (suc fuel) cursor =
      next_page-NonEmpty _ (query_logs name q batch_size 0 cursor logs) (pages-NonEmpty fuel)

module _ (isoformat : ℕ → String) where
  -- The records of a page stand behind those that were read before.
  scan-page :
      (rows : List (List (List ℕ))) (e : LogEvent) (es : List LogEvent)
      → scan (csv_chunk isoformat (e ∷ es)) (before_field [] rows)
        ≡ before_field [] (rows ++ map (columns isoformat) (e ∷ es))
  unfolding csv_chunk csv_line columns join
  scan-page rows e [] = scan-row rows [] _ _
  scan-page rows e (f ∷ es) =
      scan-parts (csv_line isoformat e) newline (join newline (map (csv_line isoformat) (f ∷ es)))
        newline _
      ∙ ap (scan (csv_chunk isoformat (f ∷ es))) (scan-row rows [] _ _)
      ∙ scan-page (rows ++ columns isoformat e ∷ []) f es
      ∙ ap (before_field [])
          (append_assoc rows (columns isoformat e ∷ []) (map (columns isoformat) (f ∷ es)))

  scan-pages :
      (rows : List (List (List ℕ))) (ps : List (List LogEvent))
      → All NonEmpty ps
      → scan (concat (map (csv_chunk isoformat) ps)) (before_field [] rows)
        ≡ before_field [] (rows ++ map (columns isoformat) (concat ps))
  unfolding scan concat
  scan-pages rows [] h = ap (before_field []) (sym (append-nil rows))
  scan-pages rows (p ∷ ps) (some_rows e es, h) =
      scan-append (csv_chunk isoformat (e ∷ es)) (concat (map (csv_chunk isoformat) ps)) _
      ∙ ap (scan (concat (map (csv_chunk isoformat) ps))) (scan-page rows e es)
      ∙ scan-pages (rows ++ map (columns isoformat) (e ∷ es)) ps h
      ∙ ap (before_field []) (
          append_assoc rows (map (columns isoformat) (e ∷ es)) (map (columns isoformat) (concat ps))
          ∙ ap (λ r. rows ++ r) (sym (map-append (columns isoformat) (e ∷ es) (concat ps))))

map-concat :
    {A B : Type 0} (f : A → B) (xss : List (List A)) → concat (map (map f) xss) ≡ map f (concat xss)
unfolding concat
map-concat f [] = refl
map-concat f (xs ∷ xss) =
    ap (λ r. map f xs ++ r) (map-concat f xss) ∙ sym (map-append f xs (concat xss))

module _ (isoformat : ℕ → String) (name q : Option String) (batch_size : ℕ)
    (positive : 1 ≤ batch_size) (logs : List LogEvent) (keys : Pairs Apart logs) where
  pages_whole : concat (pages name q batch_size logs (suc (length logs)) none) ≡ listing name q logs
  unfolding listing matching behind
  pages_whole =
      pages-concat name q batch_size positive logs keys (suc (length logs)) none (
        omega (
          arith,
          length-filter_le (behind none) (listing name q logs),
          length-sort_by newer (matching name q logs),
          length-filter_le (has_text q) (filter (of_service name) logs),
          length-filter_le (of_service name) logs,
        ))
      ∙ filter_keeps (behind none) (listing name q logs)
          (pointwise-All (λ e. behind none e ≡ true) (λ e. refl) (listing name q logs))

  abbrev all_pages : List (List LogEvent)
  all_pages = pages name q batch_size logs (suc (length logs)) none

  -- With a positive batch size and different primary keys, the text download is the lines of all
  -- rows that match, each once, the newest first.
  pub text_download :
      (iter_logs_as_text isoformat name q batch_size logs
        ≡ map (text_line isoformat) (listing name q logs))
      × Sorted newer (listing name q logs)
  unfolding iter_logs_as_text
  text_download = (
    map-concat (text_line isoformat) (pages name q batch_size logs (suc (length logs)) none)
        ∙ ap (map (text_line isoformat)) pages_whole,
    listing-Sorted name q batch_size positive logs keys,
  )

  -- With a positive batch size and different primary keys, a reader of RFC 4180 has from the CSV
  -- download the header and then the five columns of each row that matches, once each and the newest
  -- first, whatever characters the columns hold.
  pub csv_download :
      read_csv (concat (iter_logs_as_csv isoformat name q batch_size logs))
      ≡ header_columns ∷ map (columns isoformat) (listing name q logs)
  unfolding iter_logs_as_csv read_csv concat
  csv_download =
      ap (λ r. r.rows)
        (scan-append csv_header (concat (map (csv_chunk isoformat) all_pages)) (before_field [] [])
          ∙ ap (scan (concat (map (csv_chunk isoformat) all_pages))) scan-header
          ∙ scan-pages isoformat (header_columns ∷ []) all_pages
              (pages-NonEmpty name q batch_size logs (suc (length logs)) none))
      ∙ ap (λ es. header_columns ∷ map (columns isoformat) es) pages_whole
