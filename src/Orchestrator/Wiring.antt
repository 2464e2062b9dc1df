-- ===== src/Orchestrator/Wiring.antt =====
-- The reconciler of pkg/orchestrator/controller.go with the alert manager, the audit writer and the instance
-- manager of the repository in its interfaces.
use mathlib.Core.Option
use mathlib.Core.Option.{some-injective}
use eks_financial_orchestrat.Common.{ℕ, String, ◌≡◌, ◌≢◌, sym, ap, Option, some, List}
use eks_financial_orchestrat.Common.Float.{Float}
use eks_financial_orchestrat.Common.Result.{Result, ok, err}
use eks_financial_orchestrat.Sql.{QueryError}
use eks_financial_orchestrat.Types.{Time, FinancialPolicy, policy_phase_error}
use eks_financial_orchestrat.Kube.{KubeClient, IsApiServer}
use eks_financial_orchestrat.Collector.Costs.{DailyCostRecord}
use eks_financial_orchestrat.Alerting.{
  Alert, AlertError, AlertManager, Behaviour, Notification, Sender, send_alert,
}
use eks_financial_orchestrat.Audit.{AuditLogEntry, AuditRow, AuditState, Details, write_entry}
use eks_financial_orchestrat.Instance.{InstanceMixAnalysis, Node, analyze_instance_mix}
use eks_financial_orchestrat.Instance.Recommend.{generate_recommendation}
use eks_financial_orchestrat.Instance.Apply.{apply_recommendation}
use eks_financial_orchestrat.Orchestrator.{Instances, OrchestratorReconciler, Library}
use eks_financial_orchestrat.Orchestrator.Reconcile.{reconcile}
use eks_financial_orchestrat.Orchestrator.Reconcile.Outcome.{KeepsPolicies, Ends, reconcile-Ends}

-- The API server, and the audit log with its database.
pub record World (F S D : Type 0) : Type 0 where
  pub server : S
  pub log : AuditState F D

module _ {F S D : Type 0} where
  abbrev on_server : {A : Type 0} → (S → A × S) → World F S D → A × World F S D
  on_server call w = let (a, s) = call w.server in (a, record w { server = s })

  abbrev on_log :
      {A : Type 0} → (AuditState F D → A × AuditState F D) → World F S D → A × World F S D
  on_log call w = let (a, l) = call w.log in (a, record w { log = l })

  abbrev pub client_in : KubeClient F S → KubeClient F (World F S D)
  client_in c = record {
    get = λ ns n w. c.get ns n w.server;
    list = λ ns w. c.list ns w.server;
    create = λ p. on_server (c.create p);
    update = λ p. on_server (c.update p);
    status_update = λ p. on_server (c.status_update p);
  }

-- What the implementations need: the channels and how they behave, the text of an error of the alert
-- manager, the encoding of details, the database, the nodes of the cluster, and the texts of a
-- recommendation's id and reason.
pub record Parts (F D : Type 0) : Type 0 where
  pub alert_manager : AlertManager
  pub respond : ℕ → Sender → Notification F → Behaviour
  pub explain : AlertError → String
  pub marshal : Details F → Result String String
  pub exec : AuditRow F → D → Option String × D
  pub nodes : Result String (List Node)
  pub id : String
  pub reason : String

module _ {F S D : Type 0} ⦃fl : Float F⦄ (client : KubeClient F S) (parts : Parts F D)
    (query : Time → Time → String → World F S D → Result QueryError (List (DailyCostRecord F)))
    (now : Time) where
  abbrev alerts : Alert F → World F S D → Option String × World F S D
  alerts a w =
      (Option.map parts.explain (send_alert parts.respond parts.alert_manager now a).error, w)

  abbrev entries : AuditLogEntry F → World F S D → Option String × World F S D
  entries e = on_log (write_entry parts.marshal parts.exec now e)

  abbrev analysis : Result String (List Node) → Result String (InstanceMixAnalysis F)
  analysis (ok nodes) = ok (analyze_instance_mix now nodes)
  analysis (err e) = err e

  abbrev default_instances : Instances F (World F S D)
  default_instances = record {
    analyze = λ w. analysis parts.nodes;
    generate = λ a ps. generate_recommendation now (some a) ps;
    apply = λ rec. apply_recommendation (some entries) now parts.id parts.reason (some rec);
  }

  abbrev pub wired : OrchestratorReconciler F (World F S D)
  wired = record {
    client = client_in client;
    query_cost_records = query;
    send_alert = some alerts;
    write_entry = some entries;
    instances = some default_instances;
  }

  -- None of them writes policies, as the reconciler's theorem asks of them.
  pub wired-KeepsPolicies : KeepsPolicies wired
  unfolding apply_recommendation
  wired-KeepsPolicies = record {
    alerts = λ send e a w ns n.
        ap (λ f. client.get ns n (f a w).1.server) (sym (some-injective alerts send e));
    entries = λ write e entry w ns n.
        ap (λ f. client.get ns n (f entry w).1.server) (sym (some-injective entries write e));
    applications = λ m e rec w ns n.
        ap (λ m. client.get ns n (m.apply rec w).1.server)
          (sym (some-injective default_instances m e));
  }

module _ {F S D : Type 0} (c : KubeClient F S) where
  answered :
      {A : Type 0} (call : S → A × S) (w w' : World F S D) (a : A)
      → on_server call w ≡ (a, w')
      → call w.server ≡ (a, w'.server)
  answered call w w' a e = ap (λ o. (o.0, o.1.server)) e

  -- The server is one whatever else is in the world.
  pub client_in-IsApiServer : IsApiServer c → IsApiServer (client_in {D = D} c)
  client_in-IsApiServer h = record {
    create_stores =
        λ p q w w' e. h.create_stores p q w.server w'.server (answered (c.create p) w w' (ok q) e);
    update_stores =
        λ p q w w' e. h.update_stores p q w.server w'.server (answered (c.update p) w w' (ok q) e);
    update_answers = λ p q old w w' phase e found same.
        h.update_answers p q old w.server w'.server phase (answered (c.update p) w w' (ok q) e)
          found same;
    status_update_stores = λ p q old w w' e found.
        h.status_update_stores p q old w.server w'.server
          (answered (c.status_update p) w w' (ok q) e) found;
    list_reads = λ ns w ps e. h.list_reads ns w.server ps e;
    get_names = λ ns n w p e. h.get_names ns n w.server p e;
  }

module _ {F S D : Type 0} ⦃fl : Float F⦄ (client : KubeClient F S) (parts : Parts F D)
    (query : Time → Time → String → World F S D → Result QueryError (List (DailyCostRecord F)))
    (now : Time) (lib : Library F) where
  -- So `reconcile-Ends` holds of the repository's own alert manager, audit writer and instance manager,
  -- whatever their channels, database and cluster do.
  pub wired-Ends :
      IsApiServer client
      → (ns n : String) (w : World F S D) (fp : FinancialPolicy F)
      → (records : List (DailyCostRecord F)) → client.get ns n w.server ≡ ok fp
      → fp.status.phase ≢ policy_phase_error
      → query (lib.start_of_month now) now fp.spec.target_namespace w ≡ ok records
      → Ends
          (wired client parts query now)
          now
          ns
          n
          fp
          records
          (reconcile (wired client parts query now) lib now ns n w)
  wired-Ends server ns n w fp records found phase answers =
      reconcile-Ends (wired client parts query now) (wired-KeepsPolicies client parts query now) lib
        now ns n (client_in-IsApiServer client server) w fp records found phase answers
