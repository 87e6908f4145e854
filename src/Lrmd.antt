-- ===== src/Lrmd.antt =====
-- lrm/lrmd/lrmd.c, the local resource manager: the operations queued on a resource, how they are
-- run, completed, repeated, cancelled and flushed.
pub mod Messages
mod Named
mod HaMessages
mod HaFields
pub mod Ops
pub mod Done
pub mod Perform
pub mod Handlers
pub mod Ended
pub mod Request
mod Sample
mod Tests
mod RunTests
