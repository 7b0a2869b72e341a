-- ===== src/Graphic.antt =====
-- shim/ui and shim/shim_fence.cpp: GraphicBuffer, GraphicBufferAllocator and GraphicBufferMapper. The code under
-- QCOM_BSP_LEGACY and EXYNOS4_ENHANCEMENTS is not built for this device and not modelled.
pub mod Gralloc
pub mod Allocator
pub mod Mapper
pub mod Buffer
pub mod Flatten
pub mod Accounting
pub mod Fences
pub mod Locking
pub mod Lifetime
pub mod Life
pub mod Dump
pub mod Native
pub mod Receives
pub mod RoundTrip
pub mod Cursors
pub mod Fence
mod Model
mod Tests
