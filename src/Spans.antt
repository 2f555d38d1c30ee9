-- ===== src/Spans.antt =====
-- src/spans.rs: maps of half-open spans of sectors.
pub mod Map
pub mod View
pub mod Insert
pub mod Remove
