-- ===== src/Tests.antt =====
-- Runs of the definitions on concrete inputs, and the theorems applied to such inputs.
mod Data
mod Protocol
mod Connections
mod Bulk
mod Texts
mod Selects
mod Services
mod Capture
