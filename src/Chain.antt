-- ===== src/Chain.antt =====
-- Chains of workflows, each stage a work plan: internal/projectworkflowchain.
pub mod Model
pub mod Rules
pub mod Cycle
pub mod Config
pub mod Run
pub mod Service
pub mod Memory
pub mod System
mod Tests
