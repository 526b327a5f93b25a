-- ===== src/Core/Orchestrator/Quiet.antt =====
-- Docker commands and waiting, and the database and the set of active restarts beside them.
use dockfleet.Prelude.{
  ℕ, zero, suc, ◌-◌, ◌≡◌, refl, true, false, not, ◌||◌, List, [], ◌∷◌, String, leb, ltb,
}
use dockfleet.Cli.Config.{ServiceConfig}
use dockfleet.Core.Exec.{
  World, Node, Exec, Command, Reply, exited, timed_out, broken, gets, run, sleep, ask,
}
use dockfleet.Core.Exec.Keeps.{
  Keeps, Keeps-pure, Keeps-raise, Keeps-gets, Keeps-if, Keeps-bind, Keeps-try_except,
}
use dockfleet.Core.Docker.{
  create_network, network_reply, remove_container, stop_container, run_container, remove_reply,
  stop_reply, checked_reply,
}
use dockfleet.Core.Ports.{
  Binding, is_port_released, all_released, poll, wait_for_ports_released, extract_host_ports,
}
use dockfleet.Core.Orchestrator.{wait_for_ports, ignore_errors}

-- `P` speaks of the database and of the active restarts alone.
pub record IsQuiet (P : Node → Type 0) : Type 0 where
  pub carry : (s s' : Node) → s'.db ≡ s.db → s'.active ≡ s.active → P s → P s'

module _ (world : World) (P : Node → Type 0) (quiet : IsQuiet P) where
  pub run-Keeps : (command : Command) → Keeps P (run world command)
  unfolding run
  run-Keeps command = record { at = λ s h. quiet.carry s _ refl refl h }

  sleep-Keeps : (d : ℕ) → Keeps P (sleep world d)
  unfolding sleep
  sleep-Keeps d = record { at = λ s h. quiet.carry s _ refl refl h }

  ask-Keeps : {A : Type 0} (answer : ℕ → A) → Keeps P (ask world answer)
  unfolding ask
  ask-Keeps answer = record { at = λ s h. quiet.carry s _ refl refl h }

  pub remove_container-Keeps : (name : String) → Keeps P (remove_container world name)
  unfolding remove_container
  remove_container-Keeps name = Keeps-bind _ _ (run-Keeps _) λ reply. go reply
    where
      go : (reply : Reply) → Keeps P (remove_reply world reply)
      go (exited zero e) = Keeps-pure tt
      go (exited (suc code) e) = Keeps-if _ _ _ (Keeps-pure tt) (Keeps-raise e)
      go timed_out = Keeps-raise _
      go (broken e) = Keeps-raise e

  pub stop_container-Keeps : (name : String) → Keeps P (stop_container world name)
  unfolding stop_container
  stop_container-Keeps name = Keeps-bind _ _ (run-Keeps _) λ reply. go reply
    where
      go : (reply : Reply) → Keeps P (stop_reply world name reply)
      go (exited zero e) = Keeps-pure tt
      go (exited (suc code) e) = Keeps-if _ _ _ (Keeps-pure tt) (Keeps-raise _)
      go timed_out = Keeps-raise _
      go (broken e) = Keeps-raise e

  pub run_container-Keeps :
      (image name : String) (flags : List String) (network : String)
      → Keeps P (run_container world image name flags network)
  unfolding run_container
  run_container-Keeps image name flags network = Keeps-bind _ _ (run-Keeps _) λ reply. go reply
    where
      go : (reply : Reply) → Keeps P (checked_reply world reply)
      go (exited zero e) = Keeps-pure tt
      go (exited (suc code) e) = Keeps-raise _
      go timed_out = Keeps-raise _
      go (broken e) = Keeps-raise e

  pub create_network-Keeps : (name : String) → Keeps P (create_network world name)
  unfolding create_network
  create_network-Keeps name = Keeps-bind _ _ (run-Keeps _) λ reply. go reply
    where
      go : (reply : Reply) → Keeps P (network_reply world reply)
      go (exited zero e) = Keeps-pure tt
      go (exited (suc code) e) = Keeps-if _ _ _ (Keeps-pure tt) (Keeps-raise _)
      go timed_out = Keeps-raise _
      go (broken e) = Keeps-raise e

  is_port_released-Keeps : (b : Binding) → Keeps P (is_port_released world b)
  unfolding is_port_released
  is_port_released-Keeps (host, port) =
      Keeps-if (leb port 65535) _ _ (ask-Keeps _) (Keeps-raise "OverflowError")

  all_released-Keeps : (bindings : List Binding) → Keeps P (all_released world bindings)
  unfolding all_released
  all_released-Keeps [] = Keeps-pure true
  all_released-Keeps (b ∷ bindings) =
      Keeps-bind (is_port_released world b) _ (is_port_released-Keeps b)
        (λ free. Keeps-if free _ _ (all_released-Keeps bindings) (Keeps-pure false))

  poll-Keeps :
      (fuel start timeout : ℕ) (bindings : List Binding)
      → Keeps P (poll world fuel start timeout bindings)
  unfolding poll
  poll-Keeps zero start timeout bindings = all_released-Keeps bindings
  poll-Keeps (suc fuel) start timeout bindings =
      Keeps-bind (gets (λ s. s.now)) _ (Keeps-gets _) λ now.
        Keeps-bind (all_released world bindings) _ (all_released-Keeps bindings) λ released.
          Keeps-if (released || not (ltb (now - start) timeout)) _ _ (Keeps-pure released) (
            Keeps-bind (sleep world _) _ (sleep-Keeps _)
              (λ t. poll-Keeps fuel start timeout bindings))

  wait_for_ports_released-Keeps :
      (bindings : List Binding) (timeout : ℕ)
      → Keeps P (wait_for_ports_released world bindings timeout)
  unfolding wait_for_ports_released
  wait_for_ports_released-Keeps [] timeout = Keeps-pure true
  wait_for_ports_released-Keeps (b ∷ bindings) timeout =
      Keeps-bind (gets (λ s. s.now)) _ (Keeps-gets _) (λ start. poll-Keeps _ start timeout _)

  pub wait_for_ports-Keeps : (svc : ServiceConfig) → Keeps P (wait_for_ports world svc)
  wait_for_ports-Keeps svc =
      Keeps-bind _ _ (wait_for_ports_released-Keeps (extract_host_ports svc) _)
        (λ released. Keeps-pure tt)

  pub ignore_errors-Keeps : (m : Exec (Unit {0})) → Keeps P m → Keeps P (ignore_errors world m)
  ignore_errors-Keeps m k = Keeps-try_except m _ k (λ e. Keeps-pure tt)
