-- ===== src/RoundTrip.antt =====
-- What the conversion of compiler/ir/convert.go followed by the way back of
-- compiler/emitter/ir_emitter.go keeps.
mod Types
mod Fields
mod Args
mod Nested
mod Flows
mod Entities
mod Services
mod Examples
mod Endpoints
