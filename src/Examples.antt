-- ===== src/Examples.antt =====
-- A small site, and the theorems applied to it.
mod Fixed
mod Site
mod Platform
mod Planning
mod Gateway
mod Signatures
mod Messages
mod Storage
mod Console
mod Boot
