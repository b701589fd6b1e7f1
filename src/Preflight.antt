-- ===== src/Preflight.antt =====
-- apps/api/app/infrastructure/preflight.py: at most so many reads of outer sources at once, the next
-- ones in a bounded queue, each with one deadline.
pub mod Sets
pub mod Budgets
pub mod Admission
pub mod Sources
pub mod Sound
pub mod Closing
pub mod Handover
pub mod Deadlines
mod Tests
