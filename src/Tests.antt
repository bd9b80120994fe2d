-- ===== src/Tests.antt =====
-- Runs of the theorems at concrete inputs.
mod Media
mod Control
mod Transport
mod Source
mod Handshake
mod Connection
