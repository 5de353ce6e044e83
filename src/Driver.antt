-- ===== src/Driver.antt =====
-- sw/drv, the kernel module: the ledger of each region, the per-fd state, and the ioctls.
pub mod Bitmap
pub mod Ledger
pub mod File
pub mod Module
pub mod Init
