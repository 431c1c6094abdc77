-- ===== src/Memory.antt =====
-- The memory manager (src/runtime/memory.c): the list of tracked objects, the statistics, reference
-- counts, and the calls that allocate, move and free objects. Memory is a function from addresses to
-- objects; NULL is `none` where a pointer is tested. What the C allocator answers is a parameter. Debug
-- output is left out, and `size_t` counters do not wrap.
pub mod Pool
pub mod Objects
pub mod Collector
pub mod Allocating
pub mod Accounts
pub mod Marks
pub mod Collecting
pub mod Keeping
pub mod Resizing
pub mod Releasing
pub mod Sessions
