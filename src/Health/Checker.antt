-- ===== src/Health/Checker.antt =====
-- HealthChecker of dockfleet/health/checker.py, and _run_single_check and _split_host_port of
-- dockfleet/health/scheduler.py. Texts are lists of code points.
pub mod Endpoint
use dockfleet.Prelude.{
  ℕ, suc, ◌+◌, ◌*◌, ◌-◌, String, ◌==◌, cat, Bool, true, false, not, ◌&&◌, ◌||◌, List, [], ◌∷◌, map,
  Option, none, some, if◌then◌else◌, eqb, leb, ltb, codes, same_codes, lower, strip,
}
use dockfleet.Cli.Config.{HealthCheckConfig}
use dockfleet.Core.Exec.{Outcome, ok, raised}

-- An `int`, by its sign and its size; minus zero is zero.
pub record Signed : Type 0 where
  pub negative : Bool
  pub size : ℕ

unfoldable pub decimal_digit : ℕ → Bool
decimal_digit c = leb b'0' c && leb c b'9'

-- Digits, between two of which there may be one underscore; `open` is behind an underscore or
-- at the start.
unfoldable pub grouped : Bool → List ℕ → Bool
unfolding decimal_digit
grouped after_digit [] = after_digit
grouped after_digit (c ∷ s) =
    if decimal_digit c then grouped true s else eqb c b'_' && after_digit && grouped false s

unfoldable pub grouped_value : ℕ → List ℕ → ℕ
unfolding decimal_digit
grouped_value acc [] = acc
grouped_value acc (c ∷ s) = grouped_value (if decimal_digit c then acc * 10 + (c - b'0') else acc) s

unfoldable pub unsigned : Bool → List ℕ → Option Signed
unfolding grouped grouped_value
unsigned negative s =
    if grouped false s
    then some (record { negative = negative; size = grouped_value 0 s })
    else none

unfoldable pub signed : List ℕ → Option Signed
unfolding unsigned
signed [] = none
signed (c ∷ s) =
    if eqb c b'-'
    then unsigned true s
    else if eqb c b'+'
    then unsigned false s
    else unsigned false (c ∷ s)

-- `int(text)` of ASCII text; `none` is a ValueError
unfoldable pub parse_int : List ℕ → Option Signed
unfolding signed strip
parse_int s = signed (strip s)

-- `text.rsplit(sep, 1)`; `none` where `sep` is not in it
unfoldable pub rsplit : ℕ → List ℕ → Option (List ℕ × List ℕ)
rsplit sep [] = none
rsplit sep (c ∷ s) = elim (rsplit sep s) [
  | some (before, behind) ↦ some (c ∷ before, behind)
  | none ↦ if eqb c sep then some ([], s) else none
]

abbrev pub with_port : List ℕ → Option Signed → Option (List ℕ × Signed)
with_port host none = none
with_port host (some port) = some (host, port)

-- _split_host_port; `none` is `None, None`
unfoldable pub split_host_port : List ℕ → Option (List ℕ × Signed)
unfolding rsplit parse_int
split_host_port endpoint = elim (rsplit b':' endpoint) [
  | none ↦ none
  | some (host, port_str) ↦ with_port host (parse_int port_str)
]

pub data HttpReply : Type 0 where
  status_code : ℕ → HttpReply
  request_error : HttpReply

pub data TcpReply : Type 0 where
  connected os_error : TcpReply
  tcp_raises : String → TcpReply

pub data InspectReply : Type 0 where
  inspected : ℕ → List ℕ → InspectReply  -- the exit code and stdout
  no_docker timed_out : InspectReply
  inspect_raises : String → InspectReply

-- What the checks reach, through requests, sockets and `docker inspect`.
pub record Reach : Type 0 where
  pub get : String → HttpReply
  pub connect : List ℕ → Signed → TcpReply
  pub inspect : String → InspectReply

unfoldable pub is_success : ℕ → Bool
is_success code = leb 200 code && ltb code 400

module _ (reach : Reach) where
  abbrev pub on_http : HttpReply → Bool
  unfolding is_success
  on_http (status_code code) = is_success code
  on_http request_error = false

  unfoldable pub check_http : String → Bool
  unfolding is_success on_http
  check_http endpoint = on_http (reach.get endpoint)

  abbrev pub on_tcp : TcpReply → Outcome Bool
  on_tcp connected = ok true
  on_tcp os_error = ok false
  on_tcp (tcp_raises e) = raised e

  unfoldable pub check_tcp : List ℕ → Signed → Outcome Bool
  check_tcp host port = on_tcp (reach.connect host port)

  abbrev pub on_inspect : InspectReply → Outcome Bool
  unfolding lower strip same_codes
  on_inspect (inspected code stdout) =
      ok (eqb code 0 && same_codes (lower (strip stdout)) (codes "true"))
  on_inspect no_docker = ok false
  on_inspect timed_out = ok false
  on_inspect (inspect_raises e) = raised e

  unfoldable pub check_process : String → Outcome Bool
  unfolding on_inspect
  check_process container_name = on_inspect (reach.inspect container_name)

  -- `self._checker.check_tcp(host, port)` behind the test of the endpoint
  abbrev pub check_endpoint : Option (List ℕ × Signed) → Outcome Bool
  check_endpoint none = ok false
  check_endpoint (some (host, port)) = check_tcp host port

  -- The branches behind the first test, for a type in lower case.
  unfoldable pub check_by_type : String → List ℕ → Option String → Outcome Bool
  unfolding same_codes check_http check_process split_host_port
  check_by_type name hc_type none =
      if same_codes hc_type (codes "process")
      then check_process (cat "dockfleet_" name)
      else ok false
  check_by_type name hc_type (some endpoint) =
      if same_codes hc_type (codes "http")
      then ok (check_http endpoint)
      else if same_codes hc_type (codes "tcp")
      then check_endpoint (split_host_port (codes endpoint))
      else if same_codes hc_type (codes "process")
      then check_process (cat "dockfleet_" name)
      else ok false

  -- _run_single_check
  unfoldable pub run_single_check : String → HealthCheckConfig → Outcome Bool
  unfolding check_by_type lower
  run_single_check name hc = check_by_type name (lower (codes hc.type)) hc.endpoint

  -- The checks that a pass submits, where each ends before the next.
  unfoldable pub in_order : List (String × HealthCheckConfig) → List (String × Outcome Bool)
  unfolding run_single_check
  in_order = map (λ c. (c.0, run_single_check c.0 c.1))
