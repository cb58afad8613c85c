-- ===== src/Tests.antt =====
-- Runs of the model on concrete inputs, and each theorem at an input that meets its hypotheses.
mod Sample
mod Commands
mod Resp3Runs
mod Managers
mod Wire
mod Rpc
mod Settings
mod Keys
mod Transactions
mod Streams
mod Framed
mod Queues
mod Http
mod Wired
mod Interop
