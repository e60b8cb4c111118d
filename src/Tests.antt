-- ===== src/Tests.antt =====
-- Concrete runs of the model, and the theorems at concrete inputs.
mod Setup
mod Flows
mod Tables
mod Frames
mod Compression
mod Statics
mod Connections
mod Responses
mod Requests
mod Exchanges
