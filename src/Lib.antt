-- ===== src/Lib.antt =====
-- Simple Pi OS: the kernel of a small operating system for the Raspberry Pi A+, the library under
-- it, and the programs on the host that boot it and send it programs over a serial line. The
-- library follows the program's parts; each file names the code that it is about, with paths from
-- the repository's root.
--
-- The parts and how they interact. On the host, unix-side/install/install.c sends the kernel's
-- image to the bootloader with `simple_boot`; unix-side/shell/shell.c sends programs to the
-- kernel's loader with `send_prog`. On the Pi, the bootloader receives the image and branches to
-- it; the kernel turns on virtual memory with `vm_enable`, reads the SD card with the FAT32 code
-- of pi-side/kernel/disk, and maps memory for processes with the memory manager of
-- pi-side/kernel/vm.c. Both sides take the same checksum of what crosses the line, and the file
-- system takes it of what it reads.
--
-- - Prelude and its children: names that all parts share; arrays as lists; the results of code
--   that may stop with an `assert`, a `demand` or a panic; the C operators on bits and the laws
--   that read masks and fields as arithmetic; a pigeonhole lemma.
--
-- - Descriptor: the first-level descriptors of pi-side/kernel/vm.h and their helpers in
--   pi-side/kernel/vm.c, as a record of the bit fields.
--
-- - Vm: the memory manager of pi-side/kernel/vm.c. The state is a record: the owner of each
--   physical page (`paddr_to_asid_map`), the page tables by address, the control registers, the
--   cache operations issued so far, and memory. Its children hold the page walk of the hardware
--   (Translate), and the laws of each operation: one section (Section), the search for a free
--   page (Alloc, FreePages), mapping a range (MapPages, MapToMem), the ownership of pages
--   (Ownership), the end of a process (Unmap), and the start of the MMU (Memory, Enable).
--
-- - Crc32: the table-driven checksum of pi-side/libpi/crc32.c, against the bitwise definition of
--   the CRC (Reference).
--
-- - Wire: the serial line. A program is a process that puts bytes, waits for bytes, and returns
--   or stops; two processes with a queue in each direction make a net, whose steps are the moves
--   of either side (Net). Exchange sends one word across; Always says what holds of a result
--   whatever comes in.
--
-- - Ram, Image, Boot, Loader: memory as bytes, the loops that carry an image, the two sides of
--   the boot protocol (pi-side/bootloader/bootloader.c, unix-side/support/simple-boot.c) and of
--   the program loader (pi-side/kernel/loader.c, unix-side/shell/shell.c,
--   unix-side/support/support.c).
--
-- - Utf8: the conversion of file names, pi-side/kernel/disk/unicode-utf8.c.
--
-- - Fat32: the file allocation table and the reading of files, pi-side/kernel/disk/fs.c and
--   pi-side/kernel/disk/fat32-helpers.c. The card is its sectors. Chain, Files and Contiguous are
--   about the table and what is read along it; Directory, Count, Names and Listing about
--   directory entries and long names; Path and Walk about the lookup of a path.
--
-- - Kmalloc: the heap of pi-side/libpi/kmalloc.c, over an interface (Break) for the system call
--   that moves the break and for the memory that it makes writable; Kernel fills it with
--   `kernel_sbrk` and with memory through the page table of the running process.
--
-- - Process: the processes and the system call `kernel_sbrk` of pi-side/kernel/syscall.c, over
--   Vm. A process is reached by its pointer; memset writes through the page table that is in
--   force. Sbrk has the laws of the parts, Grows the theorem on the whole.
--
-- - Elf: the loader of programs, pi-side/kernel/elf.c. Its headers are read from memory as bytes;
--   Load is the loader itself, Tables and Program what a file that it takes must be and what the
--   list of operations says, HeapStart where the heap begins.
--
-- - Exec: the operations that the ELF loader lists, carried out in the address space of the new
--   process, and the way back to the kernel, pi-side/kernel/exec.c; the program itself is a
--   parameter. Its first half, which maps the file into both address spaces, is left out.
--
-- - Queue, Thread: the queue of pi-side/kernel/Q.h, whose links are a function from addresses,
--   and the threads of pi-side/kernel/rpi-thread.c over two of them. Sequence reads a queue as a
--   list; Schedule and Fork say what each operation does to the list of ready threads. Threads
--   get their memory through an interface (Alloc), which Memory fills with `kmalloc`.
--
-- - Printf, Strings: pi-side/libpi/printf.c, with the digits of a number (Numbers) and the bounds
--   of the buffer (Buffer), and pi-side/libpi/stdlib.c (Copy, Compare, Append).
--
-- - KernelShell, HostShell: the two shells, pi-side/kernel/shell.c and unix-side/shell/shell.c
--   with unix-side/shell/shell-support.c. Tokens is about the splitting of a line; Understood
--   puts the two together: what one sends is what the other does.
--
-- - Matcher, HostFs: what reads the Pi's output until a message is seen,
--   unix-side/fs/echo-until.c, and the file system that the host serves,
--   unix-side/fs/fs-support.c and unix-side/fs/fs.c: its operations on a tree of entries
--   (Operations, Bytes, Append), the lookup (Directory), the refinement to contents by path
--   (Refines), the error numbers (Errors), what the Pi prints to the console file (Console), and
--   the command files of the directory (Commands). A file that can be written and has no command
--   is not in that directory: the plain branch of a write is modelled, and nothing is claimed of
--   it.
--
-- - Tests: runs on concrete inputs.
--
-- Numbers are machine words kept as natural numbers, cut to their width wherever C cuts them; a
-- subtraction that may go below zero is written with the modulus. Loops over a known number of
-- rounds recurse on that number. The loops over a chain of clusters take as fuel the length of
-- the table and one more, which is enough since the clusters of a chain are different entries of
-- the table; the loop of the allocator takes one round and a last test, for which the two units
-- of its fuel are enough; the loop that receives an image takes one round more than it has words;
-- the bootloader's outer loop takes a bound on the attempts. The loop of digits takes 32 rounds,
-- as many as a number of 32 bits has digits in base 2. A loop that runs to the end of a string
-- takes one round more than the string has characters. `tokenize` takes as many rounds as the
-- code, one less than the places of argv. An end of fuel is an error of its own, so that no
-- result hides it.
--
-- A parameter stands for code that is not in the repository or is assembly: the allocator of the
-- C library in HostFs, a program that the kernel runs in Exec; and the switch of threads is its
-- effect on the stored stack pointer.
--
-- The physical map of pages has 512 entries and a page table 4096, as in the code. The serial
-- line loses and changes no byte. Timing, the delays, the trace output, the printed messages and
-- the physical registers of the UART and of the SD card controller are left out, as are the
-- assembly files. Memory is a function from addresses: the boot protocol does not model that an
-- image longer than the gap to 0x200000 would overwrite the running bootloader.
pub mod Boot
pub mod Crc32
pub mod Descriptor
pub mod Elf
pub mod Exec
pub mod Fat32
pub mod HostFs
pub mod HostShell
pub mod Image
pub mod KernelShell
pub mod Kmalloc
pub mod Loader
pub mod Matcher
pub mod Prelude
pub mod Printf
pub mod Process
pub mod Queue
pub mod Ram
pub mod Strings
pub mod Tests
pub mod Thread
pub mod Utf8
pub mod Vm
pub mod Wire
