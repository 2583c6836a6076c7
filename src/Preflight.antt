-- ===== src/Preflight.antt =====
-- pkg/preflight: reports of the nodes of a workload, and the rule that names its slow nodes.
pub mod Types
pub mod Detection
pub mod Aggregator
pub mod Json
pub mod Parser
pub mod Extraction
pub mod Compaction
pub mod Transport
pub mod Publisher
pub mod Whole
mod DetectionTests
mod AggregatorTests
mod ParserTests
mod PublisherTests
