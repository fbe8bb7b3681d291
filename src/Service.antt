-- ===== src/Service.antt =====
-- internal/service: the agent as a managed service.
pub mod Supervisor
