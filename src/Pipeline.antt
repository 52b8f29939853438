-- ===== src/Pipeline.antt =====
-- app/services/pipeline: the run of one file through seven steps.
pub mod Response
pub mod Steps
pub mod Notify
pub mod Save
pub mod Shown
pub mod Runner
pub mod Sender
pub mod Dispatch
pub mod Push
pub mod Samples
pub mod Tests
