-- ===== src/Conn.antt =====
-- crates/keylens-conn: the connection crate.
pub mod Kind
pub mod Reply
pub mod Url
pub mod Value
pub mod Error
pub mod Capability
pub mod Program
pub mod Command
pub mod Decode
pub mod Bounds
pub mod Read
pub mod Info
pub mod Scan
pub mod Listings
pub mod Server
pub mod Stream
pub mod Probe
pub mod Connect
pub mod Sample
mod Examples
