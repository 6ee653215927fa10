-- ===== src/Data.antt =====
-- data/experiment.go and data/source.go: the table of chaos experiments behind SQL statements.
pub mod Model
pub mod Engine
pub mod Source
pub mod Experiment
pub mod Listed
pub mod Contract
pub mod Queries
pub mod Connection
