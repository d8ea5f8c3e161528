-- ===== src/Tests.antt =====
-- Concrete runs of the model, and the theorems at concrete inputs.
mod Buffers
mod Packages
mod Queues
mod Wakeups
mod Events
mod Exchanges
mod Timers
mod Clients
mod Logs
mod Starts
mod Workers
mod Systems
mod Questions
mod Reconnects
mod Wakings
