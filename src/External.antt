-- ===== src/External.antt =====
-- Interfaces of the crates that the source calls and does not contain. Each is a record of
-- operations with the documented laws that the source relies on.
pub mod Json
pub mod Base64
pub mod Libp2p
pub mod Http
pub mod Serde
pub mod Tokio
pub mod JsonText
pub mod Broadcast
pub mod Axum
pub mod Net
pub mod SwarmBuilder
