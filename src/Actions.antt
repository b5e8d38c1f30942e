-- ===== src/Actions.antt =====
-- The actions of a role: solana/typescript/packages/lib/src/actions.
mod Tests
pub mod Payload
pub mod Control
pub mod Action
pub mod Collection
pub mod Config
pub mod Builder
pub mod Ensure
pub mod Layout
