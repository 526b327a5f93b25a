-- ===== src/Examples/Fields.antt =====
-- The theorems on single fields of the configuration at concrete values.
use dockfleet.Prelude.{true, ◌≡◌, ◌↔◌, refl, [], ◌∷◌, some, codes, lower, strip_text, put}
use dockfleet.Core.Exec.{ok}
use dockfleet.Core.Docker.{build_env_flags}
use dockfleet.Cli.Config.{mapping, pairs, ServiceConfig}
use dockfleet.Cli.Config.Memory.{validate_memory}
use dockfleet.Cli.Config.Memory.Grammar.{Limit, memory_iff}
use dockfleet.Cli.Config.Fields.{
  text, scalar, entries, items, validate_environment, check_items, has_equals, convert, as_text,
}
use dockfleet.Cli.Config.Fields.Flags.{EnvFlags, environment-EnvFlags}
use dockfleet.Examples.Data.{web_config}

memory_iff_example :
    (validate_memory (some " 1.5GiB ") ≡ ok (some "1.5GiB"))
    ↔ (Limit (lower (codes (strip_text " 1.5GiB "))) × (strip_text " 1.5GiB " ≡ "1.5GiB"))
memory_iff_example = memory_iff " 1.5GiB " "1.5GiB"

accepted : validate_memory (some " 1.5GiB ") ≡ ok (some "1.5GiB")
unfolding validate_memory
accepted = refl

abbrev env_config : ServiceConfig
env_config = record web_config { environment = some (mapping (("PORT", "80") ∷ [])) }

environment-EnvFlags_example : EnvFlags (build_env_flags env_config)
unfolding validate_environment convert as_text put
environment-EnvFlags_example =
    environment-EnvFlags (entries ((record { shown = "PORT"; is_truthy = true }, scalar "80") ∷ []))
      (mapping (("PORT", "80") ∷ [])) env_config refl refl

-- An item of a list may have no name.
nameless : validate_environment (items (text "=80" ∷ [])) ≡ ok (some (pairs ("=80" ∷ [])))
unfolding validate_environment check_items has_equals
nameless = refl
