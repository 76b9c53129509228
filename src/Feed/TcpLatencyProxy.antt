-- ===== src/Feed/TcpLatencyProxy.antt =====
-- feed/TCPLatencyProxy.cpp: a proxy that delays, drops, duplicates and slows down what it forwards.
pub mod Throttle
pub mod Send
pub mod Buffer
pub mod Impair
pub mod Pipe
pub mod Accept
pub mod Args
pub mod Sockets
pub mod Dial
pub mod Http
pub mod Connection
pub mod Main
