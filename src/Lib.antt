-- ===== src/Lib.antt =====
-- Models and theorems for the kernel `score`: its support library (kernel/src/klib), the alignment
-- macros, the list of memory that the boot code reserves, the headers and lists of pages, the regions
-- of the address space and the page tables.
--
-- The files and the code that each models:
--   Align         kernel/src/align.rs: the rounding macros with the masks that they expand to
--   Range         kernel/src/klib/range.rs: intersects, is_in_range
--   BootReserve   kernel/src/platform/riscv/boot_reserve.rs; calls Range
--   Rbtree        kernel/src/klib/rbtree.rs: a NodePtr is a subtree and the path of parents above it
--   LinkedList    kernel/src/klib/list.rs: intrusive nodes in a memory of links, written in order
--   Bitmap        kernel/src/klib/bitmap.rs: the storage is a function from indexes to 64-bit words
--   Cmpct         kernel/src/klib/cmpctmalloc.rs: the buckets of the heap and the bits of its free lists
--   Heap          kernel/src/klib/cmpctmalloc.rs: the headers of blocks in memory, cmpct_alloc and cmpct_free;
--                 calls Cmpct and LinkedList, and an allocator of pages given as a record
--   Vmar          kernel/src/vm/vmar.rs: regions of the address space and the search for a free place;
--                 calls Align
--   PageList      kernel/src/vm/vm_page_list.rs: the pages of an object, in a tree of Rbtree
--   Bump          kernel/src/allocator.rs: BumpAllocator, the allocator of the early stage
--   VirtualAlloc  kernel/src/allocator.rs: the bitmap of VirtualAlloc; calls Bitmap
--   Mutex         kernel/src/locking/mutex.rs: the owner of a mutex and the calls of threads as steps
--   Page          kernel/src/page.rs, vm_page_state.rs: the header of a page and its flags
--   Pmm           kernel/src/pmm.rs: page arrays, the free list, allocation of pages; calls LinkedList and
--                 Page, and is an allocator for Mmu
--   PageQueues    kernel/src/vm/page_queues.rs: the queues of pages of objects; calls LinkedList and Page
--   Mmu           kernel/src/arch/riscv64/mmu.rs: tables at addresses, map_page_table and map_pages; calls
--                 Physmap, and an allocator of pages given as a record of operations and laws
--   Aspace        kernel/src/aspace.rs, vm/vm.rs: map, query and protect of an address space; calls Mmu
--   Physmap       kernel/src/defines.rs: the window in which physical memory is mapped
--   Base          shared: kernel/src/errors.rs and panic.rs as outcomes, 64-bit words, bits, lists
-- Under each, a module named for what is proved holds the proofs, and Tests runs the theorems on
-- concrete data.
--
-- A call that can fail, panic or run on returns an `Outcome`. A `usize` is a number below 2 ^ 64
-- with the wrap-around written out, as in the release build of kernel/Makefile, where overflow
-- is not checked. A call that leaves its state changed when it fails returns the outcome with
-- the state. The loops on fuel are the search of boot_reserve.rs (the highest address tried, and
-- one more, bounds its rounds), the walk of a list (one round more than elements), and the loop
-- of Bitmap::find; map_page_table has the number of levels below as its fuel, and the loop at
-- each level a round for each page; the loop that grows the heap has the first amount and one as
-- its fuel, and the walk over the nodes of a page list as many rounds as there are nodes. Static
-- state (BOOT_CONTEXT) is passed as an argument. The output macros are left out.
--
-- Not modelled: the pages that VirtualAlloc maps; boot_map and the set-up of the kernel's address space; the set-up of the arenas in
-- pmm.rs and alloc_range; memory objects and threads, which rest on the parts above;
-- device_tree, a library of another project; inline assembly, SBI calls, start-up code and the
-- console, which act on the machine only. The layout of memory is that of nodes at addresses,
-- with no overlap between fields.
pub mod Align
pub mod Aspace
pub mod Base
pub mod Bitmap
pub mod BootReserve
pub mod Bump
pub mod Cmpct
pub mod Heap
pub mod LinkedList
pub mod Mmu
pub mod Mutex
pub mod Page
pub mod PageList
pub mod PageQueues
pub mod Physmap
pub mod Pmm
pub mod Range
pub mod Rbtree
pub mod VirtualAlloc
pub mod Vmar
