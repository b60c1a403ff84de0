-- ===== src/Providers.antt =====
-- providers/: the databases, the web services and the downloads of the providers.
pub mod Decimal
pub mod Net
pub mod Database
pub mod Software77
pub mod Web
pub mod Download
