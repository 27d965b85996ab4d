-- ===== src/Agent.antt =====
-- skywalking/agent/__init__.py and skywalking/utils/reporter_log.py.
pub mod DropLog
pub mod Queues
pub mod Backoff
pub mod Lifecycle
pub mod Shutdown
pub mod Tasks
pub mod Aio
mod Tests
