-- ===== src/Segment.antt =====
-- pkg/idgen/segment: blocks of IDs from a database row, and the double buffer that hands them out.
pub mod Store
pub mod Sql
pub mod Buffer
pub mod System
mod Examples
