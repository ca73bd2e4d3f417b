-- ===== src/Config/Processes/Whole.antt =====
-- What ValidateComplete of internal/config/envfile.go says of a deployment's settings.
use nexus_relay.Common.{◌≡◌, ok, String, lookup, if◌then◌else◌, none}
use nexus_relay.Common.Ensures.{Ensures, holds, Ensures-ok, Ensures-of, ◌≫◌}
use nexus_relay.Config.Deployment.{Deployment, parse_deployment}
use nexus_relay.Config.Deployment.Laws.{IsDeployment, parse_deployment-IsDeployment}
use nexus_relay.Config.Inventory.{Process, deployment, gateway, control_plane, worker}
use nexus_relay.Config.Library.{Library, Host}
use nexus_relay.Config.Preflight.{values_for_process, consumes}
use nexus_relay.Config.Preflight.Laws.{lookup-values_for_process}
use nexus_relay.Config.Processes.{
  Gateway, ControlPlane, Worker, parse_gateway, parse_control_plane, parse_worker,
  validate_complete,
}
use nexus_relay.Config.Processes.Laws.{IsControlPlane, parse_control_plane-IsControlPlane}
use nexus_relay.Config.Processes.Services.{
  IsGateway, parse_gateway-IsGateway, IsWorker, parse_worker-IsWorker,
}
use nexus_relay.Config.Setting.{Values}

-- What a process sees of settings: those that the inventory names it as a consumer of.
pub record IsView (v : Values) (process : Process) (seen : Values) : Type 0 where
  pub sees :
      (name : String) → lookup name seen ≡ (if consumes process name then lookup name v else none)

-- A deployment and its three services, each sound in what it sees of the settings.
pub record AreSound (go : Library) (host : Host) (v : Values) : Type 0 where
  pub of_deployment : Values
  pub of_gateway : Values
  pub of_control_plane : Values
  pub of_worker : Values
  pub views :
      IsView v deployment of_deployment
      × IsView v gateway of_gateway
      × IsView v control_plane of_control_plane
      × IsView v worker of_worker
  pub whole :
      (d : Deployment) × ((parse_deployment go host of_deployment ≡ ok d)
        × IsDeployment go host of_deployment d)
  pub serving :
      (g : Gateway) × ((parse_gateway go host of_gateway ≡ ok g) × IsGateway go host of_gateway g)
  pub controlling :
      (c : ControlPlane) × ((parse_control_plane go host of_control_plane ≡ ok c)
        × IsControlPlane go host of_control_plane c)
  pub working :
      (w : Worker) × ((parse_worker go host of_worker ≡ ok w) × IsWorker go host of_worker w)

view : (v : Values) (process : Process) → IsView v process (values_for_process v process)
view v process = record { sees = λ name. lookup-values_for_process v process name }

validate_complete-Ensures :
    (go : Library) (host : Host) (v : Values)
    → Ensures (λ _. AreSound go host v) (validate_complete go host v)
unfolding validate_complete
validate_complete-Ensures go host v =
    Ensures-of (parse_deployment go host (values_for_process v deployment))
      (λ d e. (e, parse_deployment-IsDeployment go host _ e))
    ≫ λ d h0.
        Ensures-of (parse_gateway go host (values_for_process v gateway))
          (λ g e. (e, parse_gateway-IsGateway go host _ e))
        ≫ λ g h1.
            Ensures-of (parse_control_plane go host (values_for_process v control_plane))
              (λ c e. (e, parse_control_plane-IsControlPlane go host _ e))
            ≫ λ c h2.
                Ensures-of (parse_worker go host (values_for_process v worker))
                  (λ w e. (e, parse_worker-IsWorker go host _ e))
                ≫ λ w h3. holds (record {
                  of_deployment = values_for_process v deployment;
                  of_gateway = values_for_process v gateway;
                  of_control_plane = values_for_process v control_plane;
                  of_worker = values_for_process v worker;
                  views = (view v deployment, view v gateway, view v control_plane, view v worker);
                  whole = (d, h0);
                  serving = (g, h1);
                  controlling = (c, h2);
                  working = (w, h3);
                })

-- When ValidateComplete accepts a deployment's settings, each of the deployment, the gateway, the
-- control plane and the worker has a sound configuration in what it sees of them: the settings that the
-- inventory names it as a consumer of.
pub validate_complete-AreSound :
    (go : Library) (host : Host) (v : Values)
    → validate_complete go host v ≡ ok tt
    → AreSound go host v
validate_complete-AreSound go host v h = Ensures-ok (rw h at (validate_complete-Ensures go host v))
