-- ===== src/Worker.antt =====
-- internal/worker/pull.go: the worker's loops against the coordinator. What the outside does in a
-- round of a loop (the reply, a cancelled context, the clock) is a list of rounds, and `none` is a
-- panic of the event recorder.
pub mod Connection
pub mod Delivery
pub mod Renewal
pub mod Slots
pub mod Config
pub mod Executor
