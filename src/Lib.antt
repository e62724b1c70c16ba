-- ===== src/Lib.antt =====
-- SupernovaOS: models and proofs of the core logic of the kernel.
--
-- The kernel is CORE; the loader EFI starts it. The modules follow the folders of CORE/src:
--
--   Prelude   the names that all modules share, Boolean tests on numbers, lists as arrays, and machine
--             words: a number below 2 ^ w, with the wrap-around of the source written out; the bits of a mask.
--   Std       CORE/src/std/sprintf.c. Std.Format has a child for each stage: Context (ctx_putc, ctx_fill,
--             ctx_write), Digits (u64_to_str), Emit (emit_int, emit_str, emit_char), Float (emit_float),
--             Directive (the reading of a conversion) and Core (core_vsnprintf, vsnprintf, vsprintf).
--             Fields, Width, Text, Total and Buffer prove what they print.
--   Mm        CORE/src/mm. Mm.Block is pmm.c: the map of blocks in the order of their addresses, a list
--             of records for the linked nodes. Mm.Physical is vmm_alloc and vmm_free of vmm.c on the map
--             of free memory, and alloc_physical_memory and free_physical_memory on top of them.
--             Mm.Area is the same vmm_alloc on the areas of a process, where it reserves and commits:
--             Remove is the node that it takes out, Retype the parts that it makes of it,
--             and Commit the page faults at what was committed.
--             Mm.Paging is the page tables of vmm.c on physical memory as a function: the search for an
--             entry, virtual_mapping, physical_address and the page faults; Tree, Graft, Fresh, Refine,
--             Deepen, Round, Loop and Space prove that they implement an address space, and Supply
--             that alloc_physical_memory gives the pages that they rely on.
--             Mm.Paging.Uncommit is vmm_uncommit: Erase clears an entry, Unmap follows the loop, Cycle a
--             mapping that is taken back.
--             Mm.Heap is heap_alloc and heap_free of vmm.c, on the list of the heads of the blocks, with
--             the pages that virtual_mapping maps behind it: Expand is its last block, Alloc the search.
--   Pci       CORE/src/driver/pci/pci.c: Names and Vendor the names, Config the registers of the
--             configuration space, Scan the search of setup_pci. Express is pcie.c: Bars the base
--             addresses, Capabilities the walk of the capabilities.
--   Storage   CORE/src/driver/nvme/nvme.c (Nvme: the two queues, the transfer, the read) and
--             CORE/src/driver/ahci/ata.c (Ata: the command and the read).
--   Disk      CORE/src/driver/disk/disk.c (Devices) and CORE/src/fs/part.c, CORE/src/fs/gpt/gpt.c
--             (Partitions): what is enumerated.
--   Console   CORE/src/console.c: the pixels of the screen (Draw, Scroll), the grid of characters that
--             they show (Grid), and vprintf of sprintf.c on top (Print).
--   Ntfs      CORE/src/fs/ntfs: the runs of clusters of ntfs_convert_lcn, the sector of a record.
--   Scsi      CORE/src/driver/scsi/scsi.c: Reverse the reversal of bytes, Widths that of integers.
--   Xhci      CORE/src/driver/xhci/xhc_ring.c: the rings of transfers and events.
--   Irq       CORE/src/interrupt/apic.c: the walks of the MADT.
--   Sync      CORE/src/async/async.c: the reentrant lock, as a relation of the steps of its processors.
--
-- The parts meet where the source has them meet: the heap takes its pages from physical memory, which
-- keeps its free pages in a map of blocks; disks are read through the queues and commands of their
-- controllers, which the search on PCI finds; a lock guards the memory and the console.
--
-- State is passed on explicitly, and a definition has the name of its function. Where the source reads
-- hardware, the model has a parameter: Floats for the processor's arithmetic on doubles, Registers for
-- the ports of the configuration space, Machine for an NVM Express controller and Port for one of AHCI.
-- What the proofs need of it is a record of laws (Laws) or a named hypothesis.
--
-- Fuel: core_loop takes one more than the characters of the format, since every turn reads one at least;
-- read_loop, bounce_loop, direct_loop and regions take one more than the sectors, or just the sectors,
-- since every turn transfers one at least; scan takes one for each of the 65536 functions and one for the
-- end; the walks of the MADT take one more than the bytes of the table. That it is enough is proved, for the
-- MADT where no entry is of size 0. The loop of grow takes one more than the pages in
-- the size, since each turn maps one, and this is proved to be enough.
--
-- Bounds: addresses of memory are below 2 ^ 56, the width of the size of a block; the bounds of counts
-- and heaps stand as hypotheses in the theorems.
--
-- Not modelled: the supply of nodes of the memory map and the locks around it, the release of areas of
-- virtual memory and the cache of translations, the registers of interrupt controllers and
-- timers, ACPI, the devices of USB, the attributes of NTFS, the system calls and the loader. Much of
-- them is single accesses of registers and firmware.
pub mod Prelude
pub mod Std
pub mod Mm
pub mod Pci
pub mod Storage
pub mod Sync
pub mod Xhci
pub mod Irq
pub mod Disk
pub mod Scsi
pub mod Ntfs
pub mod Console
