-- ===== src/Dip.antt =====
-- `internal/clients/dip/client.go`: the configuration of the DIP client and its construction.
pub mod Key
pub mod Config
pub mod Client
