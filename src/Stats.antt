-- ===== src/Stats.antt =====
-- server/core/stats.go and server/core/histogram.go: the counters of a connector and the
-- histogram of its request times.
pub mod Float
pub mod Histogram
pub mod Holder
