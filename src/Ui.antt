-- ===== src/Ui.antt =====
-- crates/keylens-ui: the key tree and display helpers.
pub mod Tree
pub mod Pane
pub mod Format
mod Examples
