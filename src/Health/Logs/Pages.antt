-- ===== src/Health/Logs/Pages.antt =====
-- The pages of a download against the sorted list of the rows.
use dockfleet.Prelude.{
  ℕ, zero, suc, ◌≤◌, ◌≡◌, refl, sym, ap, ◌∙◌, String, true, List, [], ◌∷◌, ◌++◌, Option, none, some,
  arith, min, length, length-drop_le, take, drop, take-append-drop, ◌-◌, ◌<◌, All, Pairs, filter,
  filter_keeps, filter-filter, filter-sort_by, sort_by, sort_by-Sorted, Sorted, Before,
  filter-holds, filter-Pairs, fun_ext,
}
use mathlib.Core.Path.{subst}
use dockfleet.Health.Logs.{
  LogEvent, newer, behind, Cursor, matching, query_logs, hard_cap, of_service, has_text,
}
use dockfleet.Health.Logs.Order.{
  Apart, newer_total, newer_trans, newer_irrefl, newer_asym, behind-newer,
}
use dockfleet.Health.Logs.Export.{last_of, cursor_of, next_page, pages, concat}

-- The rows of a query without a limit, the newest first.
unfoldable pub listing : Option String → Option String → List LogEvent → List LogEvent
unfolding matching sort_by newer
listing name q logs = sort_by newer (matching name q logs)

last_of-All {κ} :
    (P : LogEvent → Type κ) (n : ℕ) (b : LogEvent) (bs : List LogEvent)
    → P b
    → All P bs
    → P (last_of b (take n bs))
unfolding last_of
last_of-All P zero b bs p h = p
last_of-All P (suc n) b [] p h = p
last_of-All P (suc n) b (c ∷ bs) p h = last_of-All P n c bs h.0 h.1

-- Behind the last row of a page are the rows that the page left.
after_page :
    (n : ℕ) (b : LogEvent) (bs : List LogEvent)
    → Sorted newer (b ∷ bs)
    → filter (newer (last_of b (take n bs))) (b ∷ bs) ≡ drop n bs
unfolding last_of filter
after_page zero b bs h = rw (newer_irrefl b, filter) (filter_keeps (newer b) bs h.0)
after_page (suc n) b [] h = rw (newer_irrefl b, filter) refl
after_page (suc n) b (c ∷ bs) h =
    let newest = last_of-All (λ e. newer b e ≡ true) n c bs h.0.0 h.0.1 in
    rw (newer_asym b (last_of c (take n bs)) newest, filter) (after_page n c bs h.1)

behind_trans :
    (cursor : Cursor) (a b : LogEvent)
    → behind cursor a ≡ true
    → newer a b ≡ true
    → behind cursor b ≡ true
unfolding behind newer
behind_trans none a b h k = refl
behind_trans (some (ts, id)) a b h k = ground arith

pub pointwise-All {κ} :
    (P : LogEvent → Type κ) → ((e : LogEvent) → P e) → (es : List LogEvent) → All P es
pointwise-All P f [] = tt
pointwise-All P f (e ∷ es) = (f e, pointwise-All P f es)

last_of-behind :
    (cursor : Cursor) (n : ℕ) (b : LogEvent) (bs : List LogEvent)
    → All (λ e. behind cursor e ≡ true) (b ∷ bs)
    → behind cursor (last_of b (take n bs)) ≡ true
last_of-behind cursor n b bs h = last_of-All (λ e. behind cursor e ≡ true) n b bs h.0 h.1

-- The rows behind the cursor that a page sets, where the page is the beginning of those behind the
-- cursor before.
next_cursor :
    (s : List LogEvent) (cursor : Cursor) (n : ℕ) (b : LogEvent) (bs : List LogEvent)
    → Sorted newer s
    → filter (behind cursor) s ≡ b ∷ bs
    → filter (behind (cursor_of (last_of b (take n bs)))) s ≡ drop n bs
next_cursor s cursor n b bs sorted rest =
    let l = last_of b (take n bs) in
    ap (λ p. filter p s) (fun_ext (behind-newer l))
    ∙ sym (
        filter-filter (newer l) (behind cursor) s (
          pointwise-All (λ e. newer l e ≡ true → behind cursor e ≡ true)
            (λ e. behind_trans cursor l e (
              last_of-behind cursor n b bs
                (subst (All (λ e. behind cursor e ≡ true)) rest (filter-holds (behind cursor) s))))
            s))
    ∙ rw rest (
        after_page n b bs
          (subst (Sorted newer) rest (filter-Pairs (Before newer) (behind cursor) s sorted)))

module _ (name q : Option String) (batch_size : ℕ) (positive : 1 ≤ batch_size)
    (logs : List LogEvent) (keys : Pairs Apart logs) where
  matching-keys : Pairs Apart (matching name q logs)
  unfolding matching
  matching-keys = filter-Pairs Apart (has_text q) _ (filter-Pairs Apart (of_service name) logs keys)

  pub listing-Sorted : Sorted newer (listing name q logs)
  unfolding listing
  listing-Sorted =
      sort_by-Sorted newer Apart newer_total newer_trans (matching name q logs) matching-keys

  -- A page begins the part of the listing that is behind the cursor.
  page_of_listing :
      (cursor : Cursor)
      → query_logs name q batch_size 0 cursor logs
        ≡ take (min batch_size hard_cap) (filter (behind cursor) (listing name q logs))
  unfolding query_logs listing
  page_of_listing cursor = ap (take (min batch_size hard_cap)) (
      sym (
        filter-sort_by newer Apart newer_total newer_trans (behind cursor) (matching name q logs)
          matching-keys))

  page_size : (n : ℕ) × (min batch_size hard_cap ≡ suc n)
  page_size = (min batch_size hard_cap - 1, omega (arith, positive))

  -- A turn of the loop, when the turns behind it give the rest.
  turn-concat :
      (later : Cursor → List (List LogEvent)) (n : ℕ) (cursor : Cursor) (rest : List LogEvent)
      → filter (behind cursor) (listing name q logs) ≡ rest
      → ((c : Cursor)
          → suc (length (filter (behind c) (listing name q logs))) ≤ length rest
          → concat (later c) ≡ filter (behind c) (listing name q logs))
      → concat (next_page name q batch_size logs later (take (suc n) rest)) ≡ rest
  unfolding concat
  turn-concat later n cursor [] e ih = refl
  turn-concat later n cursor (b ∷ bs) e ih =
      let after = next_cursor _ cursor n b bs listing-Sorted e in
      ap (λ es. b ∷ take n bs ++ es) (ih _ (rw after (omega (arith, length-drop_le n bs))) ∙ after)
      ∙ ap (◌∷◌ b) (take-append-drop n bs)

  pub pages-concat :
      (fuel : ℕ) (cursor : Cursor)
      → length (filter (behind cursor) (listing name q logs)) < fuel
      → concat (pages name q batch_size logs fuel cursor)
        ≡ filter (behind cursor) (listing name q logs)
  unfolding pages
  pages-concat zero cursor h = ground arith
  pages-concat (suc fuel) cursor h =
      rw (page_of_listing cursor, page_size.1)
        (turn-concat (pages name q batch_size logs fuel) page_size.0 cursor _ refl
          (λ c shorter. pages-concat fuel c (omega (arith, shorter, h))))
