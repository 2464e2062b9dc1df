-- ===== src/Main.antt =====
-- main.go: the manager of controller-runtime is set up and started. Each call of that library is known by
-- the error it returns and the state `S` it leaves; `parse` reads the flags of the command line over
-- their defaults. The choice of a logger and GetConfigOrDie, which ends the program itself where it finds
-- no configuration, come before and are left out.
use eks_financial_orchestrat.Common.{ℕ, String, Bool, false, Option, none, some, List, [], ◌∷◌}
use eks_financial_orchestrat.Common.Result.{Result, ok, err}
pub mod Startup
mod Tests

-- `flag.StringVar` and `flag.BoolVar`
pub record Flags : Type 0 where
  pub metrics_addr : String
  pub probe_addr : String
  pub enable_leader_election : Bool

abbrev pub default_flags : Flags
default_flags = record {
  metrics_addr = ":8080";
  probe_addr = ":8081";
  enable_leader_election = false;
}

-- `ctrl.Options`
pub record ManagerOptions : Type 0 where
  pub metrics_bind_address : String
  pub health_probe_bind_address : String
  pub leader_election : Bool
  pub leader_election_id : String

-- The fields of the registered `OrchestratorReconciler` besides its client, scheme and logger: whether
-- each is set.
pub record OrchestratorFields : Type 0 where
  pub policy_manager : Bool
  pub alert_manager : Bool
  pub instance_manager : Bool
  pub forecaster : Bool
  pub cost_store : Bool
  pub audit_writer : Bool

pub record Runtime (Mgr S : Type 0) : Type 0 where
  pub new_manager : ManagerOptions → S → Result String Mgr × S
  pub setup_policy : Mgr → S → Option String × S
  pub setup_orchestrator : OrchestratorFields → Mgr → S → Option String × S
  pub add_healthz_check : String → Mgr → S → Option String × S
  pub add_readyz_check : String → Mgr → S → Option String × S
  pub start : Mgr → S → Option String × S

-- `os.Exit(1)` after a log line, or the return of `main`.
pub data Ending : Type 0 where
  exited : (message error : String) → Ending
  returned : Ending

abbrev pub options_of : Flags → ManagerOptions
options_of flags = record {
  metrics_bind_address = flags.metrics_addr;
  health_probe_bind_address = flags.probe_addr;
  leader_election = flags.enable_leader_election;
  leader_election_id = "eks-financial-orchestrator.finops.eks.io";
}

abbrev pub registered_fields : OrchestratorFields
registered_fields = record {
  policy_manager = false;
  alert_manager = false;
  instance_manager = false;
  forecaster = false;
  cost_store = false;
  audit_writer = false;
}

module _ {S : Type 0} where
  -- `if err := call; err != nil { setupLog.Error(err, message); os.Exit(1) }`
  abbrev pub or_exit : String → Option String × S → (S → Ending × S) → Ending × S
  or_exit message (some e, s) rest = (exited message e, s)
  or_exit message (none, s) rest = rest s

module _ {Mgr S : Type 0} (rt : Runtime Mgr S) where
  unfoldable pub run_manager : Mgr → S → Ending × S
  run_manager mgr s =
      or_exit "unable to create controller PolicyReconciler" (rt.setup_policy mgr s) λ s.
        or_exit "unable to create controller OrchestratorReconciler"
          (rt.setup_orchestrator registered_fields mgr s)
          λ s. or_exit "unable to set up health check" (rt.add_healthz_check "healthz" mgr s) λ s.
            or_exit "unable to set up ready check" (rt.add_readyz_check "readyz" mgr s)
              λ s. or_exit "problem running manager" (rt.start mgr s) λ s. (returned, s)

  abbrev pub with_manager : Result String Mgr × S → Ending × S
  with_manager (err e, s) = (exited "unable to start manager" e, s)
  with_manager (ok mgr, s) = run_manager mgr s

  unfoldable pub main : (Flags → Flags) → S → Ending × S
  main parse s = with_manager (rt.new_manager (options_of (parse default_flags)) s)
