-- ===== src/Trace.antt =====
-- skywalking/trace: spans, segments, contexts, carriers and snapshots.
pub mod Component
pub mod Model
pub mod Carrier
pub mod Env
pub mod Spans
pub mod Contexts
pub mod Live
pub mod Snapshots
pub mod Message
pub mod Fixtures
mod Tests
