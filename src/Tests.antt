-- ===== src/Tests.antt =====
-- The theorems at concrete inputs.
pub mod Fixtures
mod Jobs
mod Cache
mod Worker
mod Service
mod Llm
mod Webhooks
mod Auth
mod Chapters
mod Middleware
mod Monitors
mod Http
mod Ingest
mod System
mod Admin
mod Parsing
mod UrlSafety
mod Analysis
