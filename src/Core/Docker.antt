-- ===== src/Core/Docker.antt =====
-- dockfleet/core/docker.py and dockfleet/core/docker_flags.py: the Docker commands and their flags.
use dockfleet.Prelude.{
  ℕ, zero, suc, String, cat, ◌==◌, Bool, List, [], ◌∷◌, ◌++◌, Option, none, some, Dict, codes,
  contains, strip_text, decimal, lower, if◌then◌else◌,
}
use dockfleet.Cli.Config.{ServiceConfig, ResourcesConfig, pairs, mapping}
use dockfleet.Core.Exec.{
  World, Exec, Command, Reply, exited, timed_out, broken, pure, raise, ◌>>=◌, run,
}

-- `part in text`, and `part in text.lower()`
unfoldable pub within : String → String → Bool
unfolding contains
within part text = contains (codes part) (codes text)

unfoldable pub within_lower : String → String → Bool
unfolding contains lower
within_lower part text = contains (codes part) (lower (codes text))

abbrev pub flag : String → Option String → List String
flag name none = []
flag name (some value) = if value == "" then [] else name ∷ value ∷ []

abbrev memory_of : Option ResourcesConfig → Option String
memory_of none = none
memory_of (some r) = r.memory

abbrev cpu_of : Option ResourcesConfig → Option String
cpu_of none = none
cpu_of (some r) = r.cpu

-- `str(cpu)` is never empty, and a CPU limit is positive
unfoldable pub build_resource_flags : ServiceConfig → List String
build_resource_flags svc =
    flag "--memory" (memory_of svc.resources) ++ flag "--cpus" (cpu_of svc.resources)

unfoldable pub env_items : Dict String → List String
env_items [] = []
env_items ((key, value) ∷ rest) = "-e" ∷ cat key (cat "=" value) ∷ env_items rest

unfoldable pub each_flag : String → List String → List String
each_flag name [] = []
each_flag name (item ∷ rest) = name ∷ item ∷ each_flag name rest

unfoldable pub build_env_flags : ServiceConfig → List String
unfolding env_items each_flag
build_env_flags svc = elim svc.environment [
  | none ↦ []
  | some (mapping entries) ↦ env_items entries
  | some (pairs items) ↦ each_flag "-e" items
]

abbrev pub ports_or_empty : Option (List String) → List String
ports_or_empty none = []
ports_or_empty (some ports) = ports

unfoldable pub build_port_flags : ServiceConfig → List String
unfolding each_flag
build_port_flags svc = each_flag "-p" (ports_or_empty svc.ports)

module _ (world : World) where
  -- `subprocess.run(..., check=True)`: what a reply means
  abbrev pub checked_reply : Reply → Exec (Unit {0})
  checked_reply (exited zero stderr) = pure tt
  checked_reply (exited (suc code) stderr) = raise "CalledProcessError"
  checked_reply timed_out = raise "TimeoutExpired"
  checked_reply (broken e) = raise e

  abbrev pub network_reply : Reply → Exec (Unit {0})
  network_reply (exited zero stderr) = pure tt
  network_reply (exited (suc code) stderr) =
      if within_lower "already exists" stderr then pure tt else raise "CalledProcessError"
  network_reply timed_out = raise "TimeoutExpired"
  network_reply (broken e) = raise e

  unfoldable pub create_network : String → Exec (Unit {0})
  unfolding within_lower
  create_network name = do
    reply ← run world ("docker" ∷ "network" ∷ "create" ∷ name ∷ [])
    network_reply reply

  abbrev pub run_command : String → String → List String → String → Command
  run_command image name flags network =
      "docker" ∷ "run" ∷ "-d" ∷ "--name" ∷ name ∷ "--network" ∷ network ∷ (flags ++ image ∷ [])

  -- every caller gives a network
  unfoldable pub run_container : String → String → List String → String → Exec (Unit {0})
  run_container image name flags network = do
    reply ← run world (run_command image name flags network)
    checked_reply reply

  abbrev pub remove_reply : Reply → Exec (Unit {0})
  remove_reply (exited zero stderr) = pure tt
  remove_reply (exited (suc code) stderr) =
      if within "No such container" stderr then pure tt else raise stderr
  remove_reply timed_out = raise "TimeoutExpired"
  remove_reply (broken e) = raise e

  unfoldable pub remove_container : String → Exec (Unit {0})
  unfolding within
  remove_container name = do
    reply ← run world ("docker" ∷ "rm" ∷ "-f" ∷ name ∷ [])
    remove_reply reply

  -- `stderr or f"docker stop {name} failed with exit code {code}"`
  abbrev pub stop_error : String → ℕ → String → String
  stop_error name code stderr =
      if stderr == ""
      then cat "docker stop " (cat name (cat " failed with exit code " (decimal code)))
      else stderr

  abbrev pub stop_reply : String → Reply → Exec (Unit {0})
  stop_reply name (exited zero stderr) = pure tt
  stop_reply name (exited (suc code) stderr) =
      if within_lower "no such container" (strip_text stderr)
      then pure tt
      else raise (stop_error name (suc code) (strip_text stderr))
  stop_reply name timed_out = raise (cat "docker stop " (cat name " timed out after 60 seconds"))
  stop_reply name (broken e) = raise e

  unfoldable pub stop_container : String → Exec (Unit {0})
  unfolding within_lower
  stop_container name = do reply ← run world ("docker" ∷ "stop" ∷ name ∷ []); stop_reply name reply
