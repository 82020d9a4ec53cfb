-- ===== src/Hwkey.antt =====
-- The key service: app/hwcrypto/hwkey_srv_provider.c and app/hwcrypto/hwkey_srv.c.
pub mod Provider
pub mod Slots
pub mod Server
pub mod Lookup
pub mod Clean
pub mod Sanitize
pub mod Messages
pub mod Derive
pub mod KeyBox
pub mod Channels
pub mod Silent
pub mod Replies
pub mod Exchange
