-- ===== src/BullMq.antt =====
-- crates/lenses/keylens-bullmq: the BullMQ lens.
pub mod Events
pub mod Keys
pub mod Job
pub mod Lens
pub mod Jobs
pub mod Fields
pub mod Detect
mod Examples
