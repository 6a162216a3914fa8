-- ===== src/Epp.antt =====
-- epp/: the data of the protocol, its framing and the client.
pub mod Status
pub mod Response
pub mod Wire
pub mod Client
pub mod Server
mod Examples
