-- ===== src/Examples.antt =====
-- Small runs of the modelled code, and each theorem at a concrete input.
pub mod Sample
mod ClockRuns
mod ChatRuns
mod TrustRuns
mod ValidateRuns
mod AiRuns
mod AppRuns
mod RoomRuns
mod Personas
mod PersonaRuns
mod TraceRuns
mod NodeRuns
