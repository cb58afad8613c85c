-- ===== src/Resp3.antt =====
-- transport_resp3.go: the RESP3 transport.
pub mod Outcome
pub mod Frame
pub mod Reader
pub mod Protocol
pub mod Connection
