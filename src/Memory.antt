-- ===== src/Memory.antt =====
-- src/multiboot.rs, src/frame_allocator.rs and src/paging.rs: physical memory and its page tables.
pub mod Bits
pub mod Frames
pub mod Counting
pub mod FrameLaws
pub mod FrameLoops
pub mod FrameAlloc
pub mod FrameCount
pub mod FrameSafe
pub mod FrameInit
pub mod Multiboot
pub mod MapWalk
pub mod Paging
pub mod UserWalk
pub mod UserRange
pub mod Syscall
pub mod Deputy
pub mod Mapping
pub mod AddressSpace
pub mod IdentityMap
pub mod PagingInit
pub mod MapSteps
pub mod MapTranslate
pub mod Unmap
mod Tests
