-- ===== src/Tests.antt =====
-- The theorems at concrete inputs, one file for each part of the engine.
mod Engine
mod Account
mod Report
mod Sticky
mod Nodes
mod Choices
mod Guards
mod Places
mod Wire
mod Text
mod Demo
mod Print
mod Services
