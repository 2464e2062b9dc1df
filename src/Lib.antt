-- ===== src/Lib.antt =====
-- A verification library for the EKS financial orchestrator, a Kubernetes operator in Go that
-- watches the cost of a cluster: policies give budgets, a collector spreads the AWS bill over pods,
-- namespaces and teams and stores it, a reconciler compares it with the budgets, a forecaster looks
-- ahead, an alert manager tells people about breaches, and a REST API reports. The scheduler of the
-- collector calls its parts in turn; the reconciler of the orchestrator calls the cost store, the
-- alert manager, the instance manager and the audit log; the API reads the stores.
--
-- Files, with the code that they model:
--   Types: api/v1alpha1/financialpolicy_types.go, the custom resource FinancialPolicy, and the constants
--     of optimizationaction_types.go.
--   DeepCopy: api/v1alpha1/zz_generated.deepcopy.go, and in DeepCopy.Structs the structs of all three
--     resources (costreport_types.go, optimizationaction_types.go) with their references left open. A
--     copy is a program over the heap of Memory; DeepCopy.Cells has what lies in its cells, DeepCopy.Trees
--     and the modules View what is seen of a value in it, the modules Deep and DeepCopy.Independent
--     that the copies are independent. Memory.Laws and Memory.Fields have the lemmas for this.
--   Policy.Validate: pkg/policy/validate.go, ValidateFinancialPolicy; Policy.Validate.Exact describes
--     the valid policies.
--   Policy.Manager: pkg/policy/manager.go. A method of DefaultPolicyManager takes the client and the
--     state of the API server, and returns its error with the new state. History has the history
--     annotation, Apply, Rollback and Queries the methods, Undo a rollback after a write.
--   Policy.Controller: pkg/policy/controller.go, the reconciler; Policy.Controller.Verdict has what it
--     writes to the status.
--   Alerting: pkg/alerting; Alerting.Senders has the stubs of senders.go with what they log.
--     Alerting.Retry has how sendWithRetry ends, Alerting.Dispatch the rest.
--   Collector.Backoff: pkg/collector/backoff.go; Collector.Backoff.Ends has how the retries end.
--   Collector.Costs, Collector.Correlate: pkg/collector/types.go and correlate.go;
--     Collector.Correlate.Sums has what the aggregates are sums of.
--   Collector.SharedCosts: pkg/collector/shared_costs.go, which works on the costs that correlation
--     yields; Collector.SharedCosts.Allocation has its entries and totals.
--   Instance: pkg/instance/manager.go and types.go, the nodes and pods; Instance.Recommend has
--     GenerateRecommendation. Instance.Nodes has evictions and counts, Instance.Limits the limits that
--     the policies set.
--   Instance.Apply, Instance.Savings: ApplyRecommendation, and pkg/instance/savings.go.
--   Collector.Cache: pkg/collector/cache.go and FetchAWSCosts; Collector.Explorer and its child Report:
--     pkg/collector/aws.go; Collector.Metrics, Collector.Default: pkg/collector/collector.go; Collector.Store:
--     pkg/collector/store.go; Collector.Scheduler: pkg/collector/scheduler.go. Of their children
--     Fresh has what a failed call falls back to, Sums the parsed costs, Direct the stored rows, and
--     Cycles what the cycles leave in the database.
--   Audit: pkg/audit; Audit.Placeholders has the text and the arguments of the query.
--   Api.Roles: pkg/api/middleware.go; Api.Reports, Api.Handlers and Api.Server: pkg/api/server.go and
--     types.go. Api.Server.Access has who may use which route.
--   Forecast: pkg/forecast. HoltWinters is holtwinters.go, Intervals, Thresholds and Seasonality are
--     forecaster.go, Scheduler is scheduler.go, with what failed runs keep in Kept.
--   Orchestrator: pkg/orchestrator/controller.go. Actions has the breach actions and the optimization,
--     Reconcile the reconciler. Wiring puts the repository's own alert manager, audit writer and
--     instance manager into its interfaces, which main leaves empty.
--   Exporter: pkg/metrics/exporter.go; Exporter.Values has what a scrape reports after an update, and
--     Exporter.Correlated what it reports of the collector's costs.
--   Database: pkg/db/db.go; Database.Migrations has which migrations are executed, and in which order.
--   Main: main.go; Main.Startup has what has happened when it returns.
--   Sql: what is used of the database driver. Kube.Single is a server for tests.
--   Kube: the API client of controller-runtime, which is not part of the repository.
--   Common: lists, maps, results, floats. Tests below a component hold runs at concrete inputs.
--
-- Parameters. The Kubernetes client is a record of calls over a state; `IsApiServer` says what the
-- API documents: what an accepted write has stored is what the next read returns, the status is a
-- subresource, which an update leaves alone, and a response is decoded over the object that was
-- sent, which keeps what the response omits. JSON is a codec with a round trip (`IsCodec`), its times
-- those in whole seconds, to which the resource's times are marshalled. Floats are an abstract
-- type with the operations of the code; where an order is needed, `IsOrdered` has the laws of IEEE
-- 754 that hold of it, NaN included. Clocks, random numbers, contexts and the calls that are retried
-- are known by what they return. The deep copies of Kubernetes' own types are taken to be independent
-- (`IsDeep`), and Prometheus' gauges to hold what was last set (`GaugeVec`). Each witness instantiates these
-- parameters with a concrete one.
--
-- Maps are association lists; a range over a map goes through it in the order in which keys were
-- first written, where Go leaves the order open. Integers are natural numbers: versions, counts,
-- delays and times, none of which the code makes negative, and all far below the width of an int.
-- Retry loops recurse on the number of passes left, which the code's own bound gives
-- (max_retries + 1), so they always end; the theorems on them say with which result. The endless
-- loops of the schedulers run over the list of the ticks before the context is done. An array
-- access that Go checks at run time is an `Option`.
--
-- In the heap a slice refers to an array of its own length, and the copy of a reference has its address
-- once its contents are copied; Go leaves addresses open. An address that dangles, which Go rules
-- out, is a fault of the model, and the theorems on copies prove that none occurs.
--
-- Not modelled: most log lines and the texts of wrapped errors, the registration of reconcilers and of
-- the scheme, the locks, and what belongs to libraries: the reading of CSV text and JSON, the matching
-- of URLs to routes, the AWS and Kubernetes clients, Prometheus, and the database, with the text of
-- the insertions and the rounding to the types of its columns.
pub mod Common
pub mod Types
pub mod DeepCopy
pub mod Kube
pub mod Memory
pub mod Sql
pub mod Database
pub mod Audit
pub mod Api
pub mod Forecast
pub mod Exporter
pub mod Orchestrator
pub mod Main
pub mod Policy
pub mod Collector
pub mod Alerting
pub mod Instance
