-- ===== src/Coordinator.antt =====
-- internal/coordinator: the HTTPS API over the lease queue. Each handler is a function from the
-- server to the server and its response, with the readings of the clock as an argument; `none` is a
-- panic. A handler's calls of the queue run here without another handler between them; for the
-- queue under calls from many handlers in any order, see LeaseQueue.
pub mod Http
pub mod Server
pub mod Pull
pub mod Submit
pub mod Jobs
pub mod Status
pub mod Monitoring
pub mod Soundness
pub mod Handlers
pub mod Requests
pub mod Routes
pub mod Examples
