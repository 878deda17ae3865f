-- ===== src/Transfer.antt =====
-- The two parallel downloaders: HW3 over TCP, and HW4 over UDP.
pub mod Jobs
pub mod Ranges
pub mod Stream
pub mod Combine
pub mod Session
pub mod Serving
pub mod Table
pub mod Tcp
pub mod Servers
pub mod Pool
pub mod Udp
pub mod Datagram
pub mod Listing
pub mod Handshake
pub mod Finding
pub mod Requests
mod Tests
mod TableTests
mod ServerTests
mod RequestTests
mod UdpTests
