-- ===== src/Meter.antt =====
-- skywalking/meter: counters and histograms.
pub mod Counter
pub mod Histogram
mod Tests
