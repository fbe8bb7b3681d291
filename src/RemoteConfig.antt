-- ===== src/RemoteConfig.antt =====
-- internal/remoteconfig: contract.go, sanitize.go, store.go and engine.go.
pub mod Contract
pub mod Store
pub mod Engine
