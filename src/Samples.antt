-- ===== src/Samples.antt =====
-- Concrete plugins, services and calls, and what the theorems say of them.
mod Graphs
mod Platforms
mod Calls
mod Services
mod Breakers
mod Health
mod Identities
mod Clients
mod Limits
