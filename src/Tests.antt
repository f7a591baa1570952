-- ===== src/Tests.antt =====
-- The theorems at concrete inputs, and test runs of the definitions.
mod Breaker
mod Cache
mod Server
mod Stack
mod Ascii
mod Schemas
mod Migrator
mod Supabase
mod Routes
mod Table
mod Composer
mod Wired
mod Modules
mod Thumbnail
mod Mission
mod Logging
mod Research
mod Problems
mod Config
mod HttpClient
mod Describer
mod Describe
mod RateLimit
