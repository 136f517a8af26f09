-- ===== src/Lib.antt =====
-- AmogOS, a kernel for 32-bit x86: its memory, its disk and files, its keyboard, its tables for
-- the processor, its console, its scheduler and processes, and the library of its programs.
--
-- The kernel heap (Kheap, of src/memory/heap/kheap.c) is a table of one byte for each block of
-- 4096 bytes. Everything else that the kernel allocates comes from it, through kmalloc and
-- kzalloc, which use memset of src/memory/memory.c. Physical memory is a function from addresses
-- to bytes, so that a read or a write outside of a table is a read or a write of what lies
-- there. Kheap/Search, Kheap/Mark and Kheap/Free are about the loops, Kheap/Laws and
-- Kheap/Release about kmalloc and kfree, Kheap/Zeroed about kzalloc and the set-up.
--
-- Paging (src/memory/paging/paging.c) keeps two levels of tables in pages of the heap. It uses
-- the heap through the interface of Paging/Interface, a record of the allocation of a page and
-- its laws; Paging/Heap is the instance that the kernel heap gives. Here memory is by words, and
-- a page table is the address of its directory. Paging/Entry and Paging/Walk say what the
-- processor reads in the tables; Paging/Fresh, Paging/Vpn, Paging/Region and Paging/Unmap are
-- about new pages, single pages, regions and unmapping, Paging/UnmapRange about unmapping a
-- range, Paging/Memory says what it is that the heap runs out of pages, and Paging/Identity is
-- about paging_create_4gb_page_tables, whose tables every task starts with. Paging/Discard is
-- paging_free_page_table, Paging/Align is about the rounding to pages.
--
-- CString has the string functions of src/lib/string/string.c and the memory functions; a string
-- is a function from the index to the byte. The scans without a bound (strlen, strcpy, strncmp)
-- take fuel, and the theorems ask for more fuel than the string is long. FilePath is the path
-- parser of src/fs/utils.c, which uses them: FilePath/Spec is the description by lists,
-- FilePath/Parse compares.
--
-- Disk is src/disk/disk.c and src/disk/streamer.c. The drive is a parameter, a function from the
-- values of its registers to the bytes that it transfers; Disk/Sectors says what a drive with
-- given bytes is (the LBA28 addressing of ATA), and Disk/Read shows what a stream reads. The
-- loop takes the number of bytes to read as its fuel, enough since every round copies a byte at
-- least. Fat16 (src/fs/fat/fat16.c) reads the allocation table and the clusters through such
-- streams: Fat16/Name is about the names of entries, Fat16/Chain about the chain of clusters,
-- Fat16/Content about reads, Fat16/Seek about positions, Fat16/Directory about the number of
-- entries of a directory, with the number of rounds as fuel, and the search for a name.
-- Fat16/Open loads directories, walks along a path, and opens and closes a file, over the
-- kzalloc and kfree of a heap as parameters; none stands there for too little fuel or a read
-- through a null pointer. Fat16/Open/Root is about files of the root directory. File
-- (src/fs/file.c) is the table of open files above it, and kfopen, which goes through the path
-- parser; a file system is the record of its functions there, as in the code.
--
-- Keyboard is src/dev/ps2.c, which turns scan codes into characters and puts them in the ring of
-- the current process, and src/dev/keyboard.c, which has the ring; Keyboard/Fifo compares the
-- ring with a queue. Gdt (src/gdt/gdt.c) and Idt (src/idt/idt.c) write the tables of the
-- processor; Gdt/Encode has the processor's reading of a descriptor, Idt/Dispatch the gates, the
-- call backs and the system calls. Task (src/task/task.c) is the list of tasks; Task/Segment and
-- Task/Queue show that it represents a list of addresses that task_new and task_free change,
-- Task/Choice and Task/Next are about the choice of the next one, Task/Switch about the switch
-- to it, Task/UserCopy has the kernel's reads of user memory. Its loops take fuel: the number of
-- tasks, and one more, is enough for task_switch_and_run_any; for task_switch_to_next_and_run
-- one round decides, since it looks at the same task in every round. Process
-- (src/task/process.c) is the table of processes and their memory blocks, which Process/Blocks
-- adds and frees over the page tables. Process/Arguments is process_add_arguments, over memory
-- by bytes: what the kernel writes at the physical address of the stack is what the program
-- reads at the virtual one. Its fuel bounds the length of an argument. Process/Mmap has the
-- system calls mmap and munmap (src/syscall/umem.c), which join the blocks with the page tables.
-- Process/Loading maps a program that has been loaded and its stack, Process/Loading/Binary for
-- a binary file and Process/Loading/Segments for the segments of an ELF file, of which it also
-- uses the model of the loader. Process/Birth is task_new with task_init, which gives a process
-- its task over the identity tables. Process/Lifecycle is the end of a process: process_exit,
-- waitpid and the freeing of its task, which join the table of processes, the scheduler, the
-- page tables and the heap in one state. A process is named by its slot there. Process/Manage
-- has the system calls exit and waitpid (src/syscall/proc_mgmt.c), of which exit goes on to
-- another task; its fuel is more than the number of tasks.
--
-- Console is src/console/console.c: the cells of the video memory and the cursor. Console/Page
-- has the description that it is compared with, a page of cells with one position; Console/Print
-- and Console/Digits are about texts and numbers, Console/Clear about the empty screen. A text
-- takes more fuel than it is long, a number 12 units.
--
-- Elf is src/loader/elfloader.c on a file that is in memory: Elf/Bounds has the least and the
-- greatest address of its segments. UserLib is the library of the programs
-- (programs/stdlib/src/stdlib.c): UserLib/Number is itoa and atoi, with a fuel of 11 digits,
-- enough for a C int; UserLib/Malloc is the heap of a program, which grows through mmap, a
-- parameter there; UserLib/Tokens is strtok, with the loop of the shell (programs/shell/shell.c)
-- over the tokens of a line, and UserLib/Tokens/Words the description of its words. More fuel
-- than the line and the delimiters are long, and as many rounds as the line is long, are enough.
-- UserLib/Readline is readline_terminal on the list of what get_key gives, with an editor on
-- lists in UserLib/Readline/Edit.
--
-- Base has what the parts share: comparisons that give a Bool, lists with native lengths, the C
-- int, words of 32 bits whose arithmetic wraps at 2 ^ 32, the laws of the bit operations, and
-- memory as a function.
--
-- Not modelled: assembly (src/boot, kernel.asm, gdt.asm, idt.asm, io.asm, task.asm, tss.asm) and
-- port I/O; the start of the kernel (src/kernel.c), which calls the initialisations in order;
-- and, so far, process_new with the reading of a program, elf_load with its file, the creation
-- of processes (_create_proccess of src/syscall/proc_mgmt.c), printf of the user library, and
-- the rest of the programs (programs/shell, programs/blank). Of FAT16 resolving a volume is left
-- out, and of the disk and file code the allocations that are not tested.
pub mod Base
pub mod CString
pub mod Console
pub mod Disk
pub mod Elf
pub mod Fat16
pub mod File
pub mod FilePath
pub mod Gdt
pub mod Idt
pub mod Keyboard
pub mod Kheap
pub mod Paging
pub mod Process
pub mod Task
pub mod UserLib
