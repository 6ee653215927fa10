-- ===== src/Cmdexec.antt =====
-- web/cmdexec: the commands that start, look up and destroy experiments.
pub mod Host
pub mod Uid
pub mod Cpu
pub mod Mem
pub mod Status
pub mod Frame
pub mod Destroy
pub mod Script
