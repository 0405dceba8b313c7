-- ===== src/Rest.antt =====
-- The REST handlers below api/rest/. `Gin` is what they use of the web framework; each other module
-- is the handler of one package.
pub mod Gin
pub mod Objects
pub mod Contexts
pub mod Resources
pub mod Environment
