-- ===== src/Ks.antt =====
-- The communication library under ks/.
pub mod Conversions
pub mod Mask
pub mod Path
pub mod AbsPath
pub mod InAddrSet
pub mod MemStream
pub mod ConnectionMgr
