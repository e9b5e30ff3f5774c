-- ===== src/Profiles.antt =====
-- internal/adapters/printing/profile/memory.go and internal/adapters/printing/platform: the cache of
-- printer profiles, and the profiles as they leave it on Windows. A locked call is one step.
pub mod Normalize
pub mod Cache
mod Tests
