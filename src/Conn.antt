-- ===== src/Conn.antt =====
-- conn: what the agent says to the server of its own accord.
pub mod Connect
pub mod Start
pub mod Heartbeat
pub mod Report
