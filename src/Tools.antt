-- ===== src/Tools.antt =====
-- pkg/tools: the signature of a request, the list of the last heartbeats, the files of the agent,
-- its directories, and its end.
pub mod Sign
pub mod LimitedList
pub mod KeyFile
pub mod Archive
pub mod Sums
pub mod Set
pub mod Machine
pub mod Fetch
pub mod Ending
pub mod App
pub mod Directories
