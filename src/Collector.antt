-- ===== src/Collector.antt =====
-- pkg/collector: cost collection from the cluster and from AWS.
mod Tests
pub mod Backoff
pub mod Costs
pub mod Correlate
pub mod SharedCosts
pub mod Cache
pub mod Explorer
pub mod Store
pub mod Metrics
pub mod Default
pub mod Scheduler
