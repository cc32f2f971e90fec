-- ===== src/Lib.antt =====
-- A model of netmalloc, a Linux module whose allocator keeps the pages of a process in a storage
-- outside it, and the theorems about it.
--
-- The program. `generic_malloc` finds room for a region in an area of the process, and an area is one
-- structure of the process's memory map. A page of a region exists in memory only while it is one of
-- the two mapped pages of the process (its buffer and its cache); every other page is in the storage.
-- A fault writes the older of the two pages back, reads the page at the fault's address from the
-- storage, or clears it, and maps it.
--
-- The files, and the code under src/src that each models:
--   Align             kutils.h: align_floor, align_ceil.
--   StoredPage        stored_page.c: the list of pages that the storage holds.
--   MappedBuffer      mapped_buffer.c: the mapped pages of each process.
--   Region            area.c: regions within one area, `add_region`, `get_free_region`,
--                     `merge_neighbors_region`, `get_region`, and the part of `remove_region` that
--                     frees a region. Order, Used, Coalesced and Space hold the properties of the
--                     list: its order, the bytes given out, its free regions and its account.
--   Vma               vma.c: the memory maps.
--   Area              area.c: the area list, `create_region`, `remove_region`, `extend_vma`,
--                     `get_area`, `is_valid_address`.
--   Socket            socket.c: sending, receiving, connecting, and `inet_addr`.
--   Storage           storage.h: `struct storage_ops` as an interface, and what a reliable storage is.
--                     Storage/Kernel is the storage in kernel memory of storage.c, Storage/Network the
--                     one at the other end of a socket, with protocol.h. There, Server is the handler
--                     of server/server.py, Init opens the socket, Stack puts the operations on
--                     socket.c, Remote has a connection that delivers every message whole, and Stream
--                     one whose receive gives any number of bytes.
--   Syscall           syscall.c.
--   Pager             generic_malloc.c: `unmap_page`, `map_page`, `generic_malloc_get_page` and the
--                     fault handler, over all lists. View holds what a process sees of its memory.
--   Entry             generic_malloc.c: `can_remove_page`, `remove_storage_pages`, `close_vma`,
--                     `generic_free` and `generic_malloc`. Whole holds the system calls of netmalloc.c,
--                     with the unmapping of an emptied area that `remove_region` ends in, and the
--                     handler `generic_malloc_vm_close`.
--   System            All entry points as steps of one transition system, and its invariant; the fault
--                     handler and the free in reachable states (Reached), a free that empties an area
--                     (Netfree), and the faults in what an allocation returned (Served, Progress).
--   Module            generic_malloc.c: `generic_malloc_init`, `generic_malloc_clean`, and netmalloc.c.
--   Dump              The debug prints of the lists.
--   Common            Shared helpers, Tests concrete runs of the theorems.
--
-- The correspondence. A function of the source is the function of the same name; a part of one that
-- has its own name says in a comment where it stands. Static lists are arguments and results. A
-- circular list behind a head is a List, in the order of `next`; a pointer into a list is a cursor,
-- the nodes before it, nearest first, the node, and those behind. An `unsigned long` is a natural
-- number whose sums and differences are taken modulo 2 ^ 64 where the code takes them; a process
-- id, and a pointer, are numbers, and NULL is 0. What the kernel answers to a call (kmalloc,
-- vmalloc_user, kallsyms, insert_vm_struct, get_user_pages, vm_insert_page, do_munmap) is an
-- argument. A read through a bad pointer, and a kfree of a list head, is the result `none`.
--
-- Loops are structural recursion on the lists that they walk. The one loop over addresses, in
-- `remove_storage_pages`, runs on fuel: one more than the pages of the region's rounded range, which
-- is enough, since that range starts and ends at page boundaries; the theorems about it say that it
-- returns.
--
-- Not modelled: locking (the two system calls and the fault handler hold one semaphore throughout, and the
-- close handler runs under it when a free has caused it; calls stand one after another), the debug
-- prints within other functions, reference counts of pages, the metadata of the module, and the threads
-- of the server. The pager takes its storage as an interface, and the theorems that need one that works
-- take the laws of Storage as a hypothesis.
pub mod Common
pub mod Align
pub mod StoredPage
pub mod MappedBuffer
pub mod Region
pub mod Vma
pub mod Area
pub mod Socket
pub mod Storage
pub mod Pager
pub mod System
pub mod Entry
pub mod Syscall
pub mod Module
pub mod Dump
pub mod Tests
