-- ===== src/Tests.antt =====
-- Concrete runs, and each theorem with hypotheses at an input that meets them.
mod Samples
mod Memory
mod Format
mod Resources
mod Vendor
mod Manifests
mod Command
mod Copy
mod Controllers
mod Engine
mod Life
mod Fleet
mod Together
