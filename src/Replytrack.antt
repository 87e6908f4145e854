-- ===== src/Replytrack.antt =====
-- lib/clplumbing/replytrack.c: membership (nodetrack_t), outstanding replies (replytrack_t) and
-- the intersection of several memberships.
pub mod Tables
pub mod Nodes
pub mod Replies
pub mod Intersection
mod Tests
