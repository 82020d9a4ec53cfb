-- ===== src/Caam.antt =====
-- app/hwcrypto/caam.c: the driver of the CAAM crypto engine.
pub mod Regs
pub mod Ring
pub mod Init
pub mod Jobs
pub mod Rng
pub mod Device
pub mod Frame
pub mod Protocol
pub mod Results
pub mod Operations
pub mod Silent
pub mod Fill
pub mod Descriptors
pub mod SelfTest
pub mod Ready
pub mod Open
