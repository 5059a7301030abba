-- ===== src/Net.antt =====
-- framework/net.
pub mod Endian
pub mod Buffer
pub mod Channel
pub mod Poller
pub mod TcpConnection
pub mod Connector
pub mod EventLoopThreadPool
pub mod TcpServer
pub mod Acceptor
pub mod EventLoop
pub mod InetAddress
pub mod Socket
pub mod TcpClient
