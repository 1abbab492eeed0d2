-- ===== src/Tests.antt =====
-- Runs on concrete inputs, and the theorems at inputs that meet their hypotheses.
mod Configs
mod Supervisors
mod Stores
mod Agents
mod Reports
mod Sessions
mod Deletions
mod Charts
mod Streams
mod Exchanges
mod Goroutines
mod Hubs
mod Queries
mod Probes
mod Results
mod Migrations
