-- ===== src/Rpc.antt =====
-- SynapRPC: transport_rpc.go and the subscriptions that it carries.
pub mod Utf8
pub mod Values
pub mod Transport
pub mod Push
pub mod Goroutines
