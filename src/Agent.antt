-- ===== src/Agent.antt =====
-- cmd/agent/main.go: the agent. Probing, uploading and the public address of the agent are parameters
-- where they call the network.
pub mod Queue
pub mod Backoff
pub mod Delivery
pub mod Cycles
pub mod Probes
pub mod Workers
pub mod Address
pub mod Requests
