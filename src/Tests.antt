-- ===== src/Tests.antt =====
-- The development run on small concrete inputs, and each theorem applied to one.
mod Sessions
mod Updates
mod Trees
mod Delegations
mod Replicas
mod Calls
mod Paths
mod Zones
mod Registries
mod Clients
mod Stores
mod Clusters
mod Sizes
mod Starts
