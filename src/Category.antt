-- ===== src/Category.antt =====
-- web/category: the programs that a CPU or memory experiment starts.
pub mod Memory
pub mod Event
pub mod Cpu
