-- ===== src/Crypto.antt =====
-- internal/crypto: the coordinator's identity, and which coordinator a client trusts.
pub mod Fingerprint
pub mod Disk
pub mod Identity
pub mod Trust
pub mod Examples
