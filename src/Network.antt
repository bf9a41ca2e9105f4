-- ===== src/Network.antt =====
-- The network library (network/): the packets of web sockets, the requests, and the web server with its WiFi.
pub mod Ws
pub mod Http
pub mod Send
pub mod Client
pub mod Web
pub mod Wifi
mod Tests
