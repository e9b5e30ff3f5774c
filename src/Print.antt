-- ===== src/Print.antt =====
-- internal/app/print: the print engine. The registries of renderers, encoders and drivers are lists,
-- as in the source; what a component does is a field of it.
pub mod Resolver
pub mod Passthrough
pub mod Roles
pub mod Engine
mod Tests
