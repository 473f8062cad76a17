-- ===== src/Server.antt =====
-- src/MessageHandler.cpp, src/TcpServer.cpp: requests, their answers, and the connections that bring the
-- ones and take the others.
pub mod MessageType
pub mod Samples
pub mod Handler
pub mod Tcp
