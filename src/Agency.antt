-- ===== src/Agency.antt =====
-- A run of the agency: its model, its stations and the greenlight that gates the publisher
-- (backend/agency_runtime/models.py and orchestrator.py).
pub mod Model
pub mod Values
pub mod Stations
pub mod Services
pub mod Handlers
pub mod Orchestrator
pub mod Greenlights
pub mod Decisions
pub mod Effects
pub mod Work
pub mod Steps
pub mod Choices
pub mod Reachable
pub mod Packaging
pub mod Sealing
pub mod Governance
pub mod Weights
pub mod Progress
pub mod Termination
pub mod Authorization
pub mod Approval
pub mod Phases
pub mod Worker
pub mod Liveness
pub mod Reading
pub mod Writing
pub mod Document
pub mod Roundtrip
pub mod Restored
mod Tests
