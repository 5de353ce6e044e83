-- ===== src/Library.antt =====
-- sw/lib and sw/include/pim, the user-space library.
pub mod Address
pub mod Allocator
pub mod Device
pub mod Geometry
pub mod Pool
pub mod Open
pub mod Records
pub mod Resolve
pub mod Transfer
