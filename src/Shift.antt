-- ===== src/Shift.antt =====
-- What `updateKarpenterNodePool` and `restoreKarpenterNodePool` of app/main.go mean for a
-- cluster over one or more shifts.
pub mod Evacuation
pub mod Repeated
pub mod Operators
pub mod Overlap
pub mod Unread
pub mod Doubled
pub mod Lost
pub mod Auto
pub mod Handled
pub mod Whole
