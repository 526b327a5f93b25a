-- ===== src/Health/Logs/Export.antt =====
-- The downloads of dockfleet/health/logs.py: the loop over the pages, and the two forms of a row.
-- `isoformat` is the method of datetime.
use dockfleet.Prelude.{
  ℕ, zero, suc, String, List, [], ◌∷◌, ◌++◌, map, Option, none, some, Bool, false, ◌||◌, eqb,
  if◌then◌else◌, codes, length,
}
use dockfleet.Health.Logs.{LogEvent, Cursor, query_logs}

-- What the column may hold.
pub data Created : Type 0 where
  moment : ℕ → Created
  legacy : String → Created
  missing : Created
  other : String → Created

unfoldable pub format_created_at : (ℕ → String) → Created → String
format_created_at isoformat (moment t) = isoformat t
format_created_at isoformat (legacy t) = t
format_created_at isoformat missing = ""
format_created_at isoformat (other t) = t

-- `text or ""`
unfoldable pub or_blank : Option String → String
or_blank none = ""
or_blank (some t) = t

-- `batch[-1]` of a page that is not empty
unfoldable pub last_of : LogEvent → List LogEvent → LogEvent
last_of e [] = e
last_of e (f ∷ es) = last_of f es

abbrev pub cursor_of : LogEvent → Cursor
cursor_of e = some (e.created_at, e.id)

module _ (name q : Option String) (batch_size : ℕ) (logs : List LogEvent) where
  abbrev pub next_page : (Cursor → List (List LogEvent)) → List LogEvent → List (List LogEvent)
  next_page rest [] = []
  next_page rest (e ∷ es) = (e ∷ es) ∷ rest (cursor_of (last_of e es))

  -- The `while` loop, for at most `fuel` pages.
  unfoldable pub pages : ℕ → Cursor → List (List LogEvent)
  unfolding query_logs
  pages zero cursor = []
  pages (suc fuel) cursor = next_page (pages fuel) (query_logs name q batch_size 0 cursor logs)

  -- One page for each row, and the empty page behind them.
  abbrev pub page_fuel : ℕ
  page_fuel = suc (length logs)

abbrev pub newline : List ℕ
newline = b'\n' ∷ []

unfoldable pub concat {ℓ} : {A : Type ℓ} → List (List A) → List A
concat [] = []
concat (xs ∷ xss) = xs ++ concat xss

-- `sep.join(parts)`
unfoldable pub join : List ℕ → List (List ℕ) → List ℕ
join sep [] = []
join sep (part ∷ []) = part
join sep (part ∷ next ∷ parts) = part ++ sep ++ join sep (next ∷ parts)

unfoldable pub needs_quotes : List ℕ → Bool
needs_quotes [] = false
needs_quotes (c ∷ s) = eqb c b'"' || eqb c b',' || eqb c b'\n' || eqb c b'\r' || needs_quotes s

-- `text.replace('"', '""')`
unfoldable pub double_quotes : List ℕ → List ℕ
double_quotes [] = []
double_quotes (c ∷ s) =
    let rest = double_quotes s in if eqb c b'"' then b'"' ∷ b'"' ∷ rest else c ∷ rest

unfoldable pub csv_field : List ℕ → List ℕ
unfolding needs_quotes double_quotes
csv_field text = if needs_quotes text then b'"' ∷ double_quotes text ++ b'"' ∷ [] else text

unfoldable pub csv_header : List ℕ
csv_header = codes "service_name,timestamp,level,message,source\n"

module _ (isoformat : ℕ → String) where
  unfoldable pub text_line : LogEvent → List ℕ
  unfolding format_created_at or_blank
  text_line e =
      codes "["
      ++ codes (format_created_at isoformat (moment e.created_at))
      ++ codes "] ["
      ++ codes e.service_name
      ++ codes "] "
      ++ codes (or_blank e.message)
      ++ newline

  -- The columns of a row, before they are escaped.
  unfoldable pub columns : LogEvent → List (List ℕ)
  unfolding format_created_at or_blank
  columns e =
      codes e.service_name
      ∷ codes (format_created_at isoformat (moment e.created_at))
      ∷ codes (or_blank e.level)
      ∷ codes (or_blank e.message)
      ∷ codes (or_blank e.source)
      ∷ []

  unfoldable pub csv_line : LogEvent → List ℕ
  unfolding columns csv_field join
  csv_line e = join (b',' ∷ []) (map csv_field (columns e))

  unfoldable pub csv_chunk : List LogEvent → List ℕ
  unfolding csv_line join
  csv_chunk page = join newline (map csv_line page) ++ newline

  -- What the generators yield.
  unfoldable pub iter_logs_as_text :
      Option String → Option String → ℕ → List LogEvent → List (List ℕ)
  unfolding pages concat text_line
  iter_logs_as_text name q batch_size logs =
      concat (map (map text_line) (pages name q batch_size logs (suc (length logs)) none))

  unfoldable pub iter_logs_as_csv :
      Option String → Option String → ℕ → List LogEvent → List (List ℕ)
  unfolding pages csv_chunk csv_header
  iter_logs_as_csv name q batch_size logs =
      csv_header ∷ map csv_chunk (pages name q batch_size logs (suc (length logs)) none)
