-- ===== src/Hwrng.antt =====
-- The random number service: app/hwcrypto/hwrng_srv_provider.c and app/hwcrypto/hwrng_srv.c.
pub mod Server
pub mod Links
pub mod Fate
pub mod Serve
pub mod Queue
pub mod Contexts
pub mod Channels
pub mod Ports
pub mod Rounds
pub mod Progress
pub mod Accounts
pub mod Reply
pub mod Asked
pub mod Requests
pub mod Totals
pub mod Shares
pub mod Fair
pub mod Owed
pub mod Delivery
pub mod Resume
