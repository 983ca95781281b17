-- ===== src/Servers.antt =====
-- The servers and clients around other packages: nmoscommon/httpserver.py, zmqserver.py,
-- webSocketClient.py and interfaceController.py. Sockets and the network are parameters.
pub mod Http
pub mod Started
pub mod Zmq
pub mod Answered
pub mod Interfaces
pub mod Usable
pub mod Socket
