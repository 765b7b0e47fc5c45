-- ===== src/Tests.antt =====
-- Runs of the model on concrete inputs.
mod Texts
mod Setting
mod Handlers
mod Transfers
mod Sessions
mod Connections
mod Returns
mod Windows
mod Ends
