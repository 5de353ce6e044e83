-- ===== src/Runtime.antt =====
-- sw/runtime and sw/include/pimrt, what runs on top of the user-space library.
pub mod Isr
pub mod Lower
pub mod MacExact
pub mod MatVec
pub mod Tensor
