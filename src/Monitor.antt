-- ===== src/Monitor.antt =====
-- internal/monitor: views of the running program, and the recorder of its events.
pub mod Model
pub mod Recorder
pub mod Job
pub mod Worker
pub mod Submit
