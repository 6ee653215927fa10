-- ===== src/Tests.antt =====
-- Runs at concrete inputs, and the theorems at inputs where their hypotheses hold.
mod World
mod Records
mod Commands
mod Burning
mod Channel
mod Serving
mod Reporting
mod Handlers
mod Requests
mod Connections
mod Tools
mod Agents
