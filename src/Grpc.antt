-- ===== src/Grpc.antt =====
-- skywalking/utils/grpc_channel.py and the reporters over one channel to the collector.
pub mod Address
pub mod Target
pub mod Connectivity
pub mod Connection
pub mod Aio
pub mod Streams
mod Tests
pub mod Fixtures
