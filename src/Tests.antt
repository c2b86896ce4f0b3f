-- ===== src/Tests.antt =====
-- Runs of the controllers on a small cluster, and the theorems at concrete inputs.
mod Data
mod Sorting
mod Defaults
mod Factories
mod Memories
mod Services
mod Deployments
mod ConfigMaps
mod Configs
mod Queues
mod Wiring
mod Cluster
mod Launches
