-- ===== src/Tests.antt =====
-- Concrete runs: for each theorem with a hypothesis or an argument, one use of it.
mod Connections
mod Queries
mod Records
mod Operations
mod Statements
mod Transactions
mod Migrations
mod Varint
mod Binary
mod ClientPool
mod Requests
mod Topology
mod Transport
