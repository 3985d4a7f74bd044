-- ===== src/Agent.antt =====
-- src/agent: the thread that drives curl: its loop over requests, and its selector of sockets.
pub mod Loop
pub mod Poll
pub mod Selector
