-- ===== src/Feed.antt =====
-- include/feed: the shared inlet, its reader, and the ingestion of frames into pool and queue.
pub mod Inlet
pub mod Publish
pub mod Ingress
pub mod Stored
pub mod Reader
pub mod Acknowledged
pub mod Handoff
pub mod Compressed
pub mod InletMap
pub mod Multicast
mod Tests
