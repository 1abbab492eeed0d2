-- ===== src/Supervisor.antt =====
-- cmd/supervisor: the HTTP server. Its children model the time ranges, the connectivity of agents,
-- the cache of results and the handling of reports.
pub mod Ranges
pub mod Connectivity
pub mod Cache
pub mod Reload
pub mod Report
pub mod Session
pub mod Agents
pub mod Rows
pub mod Chart
pub mod Hub
pub mod Results
pub mod Tasks
