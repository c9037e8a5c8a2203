-- ===== src/WorkPlan.antt =====
-- Work plans and work tasks: internal/projectworkplan.
pub mod TaskStatus
pub mod PlanStatus
pub mod Patterns
pub mod Markers
pub mod Unique
pub mod Safe
pub mod Model
pub mod Store
pub mod Memory
pub mod Transition
pub mod References
pub mod Build
pub mod Service
pub mod Tests
