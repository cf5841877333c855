-- ===== src/Types.antt =====
-- internal/types: the wire types of the coordinator's API and their validation.
pub mod Validation
pub mod Wire
