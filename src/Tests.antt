-- ===== src/Tests.antt =====
-- Runs on small inputs, and the theorems at concrete data.
mod Checks
mod Archive
mod TarParts
mod TarHeaders
mod TarRuns
mod TarArchive
mod TarMain
mod TarMemory
mod Programs
mod AgentPaths
mod AgentProgress
mod Messages
