-- ===== src/Cli.antt =====
-- internal/cli: the command line.
pub mod Errors
pub mod Root
pub mod Results
pub mod Output
pub mod Submit
pub mod Waiting
pub mod Roles
pub mod Examples
