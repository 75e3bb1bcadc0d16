-- ===== src/Service.antt =====
-- The service process: internal/service.
pub mod NetServer
pub mod Login
pub mod Modules
pub mod Dispatch
pub mod GameRouter
