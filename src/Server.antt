-- ===== src/Server.antt =====
-- server.cpp: the server, which pings over the connections and measures.
pub mod Barrier
pub mod Spread
pub mod Results
pub mod Worker
pub mod Protocol
pub mod RunTest
pub mod Session
pub mod Connect
mod Tests
