-- ===== src/Examples.antt =====
-- Concrete nodes and messages, and the theorems of the library at them.
mod FirstRow
mod Nodes
mod Logs
mod Roles
mod Parts
mod Net
mod Broker
mod Ticks
mod Links
