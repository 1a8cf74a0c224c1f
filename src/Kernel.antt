-- ===== src/Kernel.antt =====
-- The kernel: kernel/*.cc and kernel/*.h.
pub mod Block
pub mod Mmu
pub mod Vmm
pub mod Execv
pub mod Fs
pub mod Process
pub mod Keyboard
pub mod Table
pub mod Queue
pub mod Timers
pub mod BoundedBuffer
pub mod Str
pub mod Heap
pub mod Vga
pub mod Console
