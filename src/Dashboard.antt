-- ===== src/Dashboard.antt =====
-- dockfleet/dashboard/services.py: what the dashboard shows of each service, from its row and from
-- the lines that `docker ps` and `docker stats` print.
pub mod Shown
pub mod Measured
pub mod Summary
pub mod Actions
use dockfleet.Prelude.{
  ℕ, String, ◌==◌, Bool, true, false, not, ◌||◌, List, [], ◌∷◌, map, Option, none, some, Dict,
  lookup, put, if◌then◌else◌, codes, contains,
}
use dockfleet.Core.Listing.{after_prefix}
use dockfleet.Health.Models.{
  Service, Db, running, stopped, unknown, container_value, unhealthy, crashed, restarting, healthy,
  health_value,
}

-- The entry of a service.
pub record Card : Type 0 where
  pub name : String
  pub status : String
  pub health_status : String
  pub image : String
  pub ports : Option String
  pub restart_policy : String
  pub restart_count : ℕ
  pub last_health_check : Option ℕ
  pub cpu : Option String
  pub memory : Option String
  pub uptime : Option String
  pub cpu_limit : Option String
  pub memory_limit : Option String

unfoldable pub card_of : Service → Card
unfolding container_value health_value
card_of svc = record {
  name = svc.name;
  status = container_value stopped;
  health_status = health_value svc.health_status;
  image = svc.image;
  ports = svc.ports_raw;
  restart_policy = svc.restart_policy;
  restart_count = svc.restart_count;
  last_health_check = svc.last_health_check;
  cpu = some "0%";
  memory = some "0MB";
  uptime = some "stopped";
  cpu_limit = none;
  memory_limit = none;
}

-- The first block: the loop over the rows.
unfoldable pub load_cards : List Service → Dict Card → Dict Card
unfolding card_of put
load_cards [] cards = cards
load_cards (svc ∷ rows) cards = load_cards rows (put svc.name (card_of svc) cards)

-- A value under "Names" or "Name": nothing, a text, a list of texts, or another one.
pub data Named : Type 0 where
  absent : Named
  named : String → Named
  listed : List String → Named
  other_value : Named

-- The entries that the code reads of the object of a line. A missing "Status" is the empty text.
pub record DockerLine : Type 0 where
  pub names : Named
  pub single : Named
  pub status_text : String
  pub running_for : Option String
  pub cpu_perc : Option String
  pub mem_usage : Option String

-- What the two commands print, as lines; `none` where the call raises. `loads` is `json.loads` and the
-- look at the object; `none` where that raises.
pub record Docker : Type 0 where
  pub ps_lines : Option (List String)
  pub stats_lines : Option (List String)
  pub loads : String → Option DockerLine

-- `names or name or ""`
unfoldable pub or_name : Named → Named → Named
or_name absent other = other
or_name (named text) other = if text == "" then other else named text
or_name (listed []) other = other
or_name (listed (text ∷ texts)) other = listed (text ∷ texts)
or_name other_value other = other_value

-- The text behind the tests on its type.
unfoldable pub text_of : Named → Option String
text_of absent = some ""
text_of (named text) = some text
text_of (listed []) = some ""
text_of (listed (text ∷ texts)) = some text
text_of other_value = none

unfoldable pub without_prefix : Option String → Option String
unfolding after_prefix
without_prefix none = none
without_prefix (some name) = after_prefix "dockfleet_" name

unfoldable pub service_name_of : DockerLine → Option String
unfolding without_prefix text_of or_name
service_name_of line = without_prefix (text_of (or_name line.names line.single))

-- What a turn of either loop does: the exception ends the loop, the turn passes the line over, or it
-- is about a service.
pub data Turn : Type 0 where
  ends passes : Turn
  about : String → DockerLine → Turn

abbrev pub to_turn : DockerLine → Option String → Turn
to_turn line none = passes
to_turn line (some service) = about service line

abbrev pub read_object : Option DockerLine → Turn
unfolding service_name_of
read_object none = ends
read_object (some line) = to_turn line (service_name_of line)

unfoldable pub turn : (String → Option DockerLine) → String → Turn
unfolding service_name_of read_object
turn loads line = if line == "" then passes else read_object (loads line)

-- `if service_name in services:`, and the writes to the entry
unfoldable pub on_card : String → (Card → Card) → Dict Card → Dict Card
unfolding lookup put
on_card service change cards = elim (lookup service cards) [
  | none ↦ cards
  | some card ↦ put service (change card) cards
]

-- The body of a `try`: what a line changes stays, also when a later one raises.
unfoldable pub show_lines :
    (String → Option DockerLine) → (DockerLine → Card → Card) → List String → Dict Card → Dict Card
unfolding turn on_card
show_lines loads change [] cards = cards
show_lines loads change (line ∷ lines) cards = elim (turn loads line) [
  | ends ↦ cards
  | passes ↦ show_lines loads change lines cards
  | about service object ↦ show_lines loads change lines (on_card service (change object) cards)
]

unfoldable pub is_restarting_text : String → Bool
unfolding contains
is_restarting_text status_raw = contains (codes "Restarting") (codes status_raw)

unfoldable pub shown_status : String → String
unfolding contains container_value is_restarting_text
shown_status status_raw =
    if contains (codes "Up") (codes status_raw) || is_restarting_text status_raw
    then container_value running
    else if contains (codes "Exited") (codes status_raw)
    then container_value stopped
    else container_value unknown

unfoldable pub is_failing_text : String → Bool
unfolding health_value
is_failing_text health = health == health_value unhealthy || health == health_value crashed

unfoldable pub shown_health : String → String → String
unfolding is_restarting_text shown_status is_failing_text health_value container_value
shown_health status_raw health =
    if is_restarting_text status_raw
    then health_value restarting
    else if shown_status status_raw == container_value running
    then (if is_failing_text health || health == health_value restarting
        then health
        else health_value healthy)
    else if shown_status status_raw == container_value stopped
    then (if is_failing_text health then health else health_value healthy)
    else health

-- A line of `docker ps`.
unfoldable pub show_ps : DockerLine → Card → Card
unfolding shown_status shown_health
show_ps line card = record card {
  status = shown_status line.status_text;
  uptime = line.running_for;
  health_status = shown_health line.status_text card.health_status;
}

-- A line of `docker stats`.
unfoldable pub show_stats : DockerLine → Card → Card
show_stats line card = record card { cpu = line.cpu_perc; memory = line.mem_usage }

abbrev pub lines_or_none : Option (List String) → List String
lines_or_none none = []
lines_or_none (some lines) = lines

-- `services` after the three blocks.
unfoldable pub cards : Docker → Db → Dict Card
unfolding show_lines show_ps show_stats load_cards
cards docker db =
    show_lines docker.loads show_stats (lines_or_none docker.stats_lines)
      (show_lines docker.loads show_ps (lines_or_none docker.ps_lines) (load_cards db.services []))

unfoldable pub values : Dict Card → List Card
values [] = []
values ((name, card) ∷ rest) = card ∷ values rest

-- services.py get_services
unfoldable pub get_services : Docker → Db → List Card
unfolding cards values
get_services docker db = values (cards docker db)
