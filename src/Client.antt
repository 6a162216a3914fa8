-- ===== src/Client.antt =====
-- client/: what the client of the registrar accepts from the server.
pub mod Trust
mod Examples
