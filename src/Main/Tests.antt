-- ===== src/Main/Tests.antt =====
-- Starts of the program, where the state is the list of the calls that were made, the newest first.
use eks_financial_orchestrat.Common.{
  ◌≡◌, refl, String, Option, none, some, List, [], ◌∷◌, ◌==◌, if◌then◌else◌,
}
use eks_financial_orchestrat.Common.Result.{ok}
use eks_financial_orchestrat.Main.{Runtime, exited, returned, run_manager, main}

-- The call `failing` has an error.
abbrev call : String → String → List String → Option String × List String
call failing name calls = (if failing == name then some "refused" else none, name ∷ calls)

abbrev runtime : String → Runtime String (List String)
runtime failing = record {
  new_manager = λ options calls. (ok options.leader_election_id, "manager" ∷ calls);
  setup_policy = λ mgr. call failing "policy";
  setup_orchestrator = λ fields mgr. call failing "orchestrator";
  add_healthz_check = λ name mgr. call failing name;
  add_readyz_check = λ name mgr. call failing name;
  start = λ mgr. call failing "start";
}

main_returns :
    main (runtime "") (λ flags. flags) []
    ≡ (returned, "start" ∷ "readyz" ∷ "healthz" ∷ "orchestrator" ∷ "policy" ∷ "manager" ∷ [])
unfolding main run_manager
main_returns = refl

main_exits : main (runtime "healthz") (λ flags. flags) [] ≡ (
  exited "unable to set up health check" "refused",
  "healthz" ∷ "orchestrator" ∷ "policy" ∷ "manager" ∷ [],
)
unfolding main run_manager
main_exits = refl
