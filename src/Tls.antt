-- ===== src/Tls.antt =====
-- skywalking/utils/tls.py: the TLS of the channel to the collector. What the operating system, the
-- ssl module and grpc answer is a parameter, and may be another at each call: files come and go
-- while the agent decides.
pub mod Env
pub mod Outcomes
pub mod Pem
pub mod Temp
pub mod Material
pub mod Clients
pub mod Context
mod Tests
