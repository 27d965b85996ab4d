-- ===== src/Profile.antt =====
-- skywalking/profile: profile tasks, their service, and the status of a profiled context.
pub mod Task
pub mod Service
pub mod Context
pub mod Profiler
pub mod Sharing
pub mod Schedule
mod Tests
