-- ===== src/Lib.antt =====
-- EstrOS, a 32-bit x86 operating system: its kernel's allocator, paging, keyboard, terminal,
-- printing, files, processes and timer, its C library's strings, and two of its programs.
--
-- The parts and how they work together. Interrupt 1 hands each scancode to `on_event`
-- (kernel/keyboard/keyboard.c), which puts it into a ring for every open keyboard file. `get_line`
-- (kernel/keyboard/input.c) takes the events from such a file and makes a line of them, which
-- `tty_read` (kernel/terminal/tty.c) hands out in pieces; `tty_write` and `printf` (kernel/print.c)
-- put characters on the screen. All of them take memory from `malloc` (kernel/heap.c), and pages
-- from the page tables of kernel/pager.c. A path is opened through
-- kernel/filesystem/virtual-filesystem.c, which keeps one counted index node for it; on the disk a
-- file is blocks that kernel/filesystem/estros-fs.c finds through pointer blocks and reads and
-- writes through a buffer; kernel/harddrive/hdd.c keeps these blocks as pairs of sectors. Processes
-- (kernel/process.c) form a ring, in which the timer's interrupt (kernel/interrupts/irq_handlers.c)
-- picks the next one; the programs apps/brainfuck and apps/calc run as such, on the C library
-- lib/goblibc.
--
-- Which file models what:
--   Prelude    names and lemmas that the parts share: Boolean tests, lists, `int` as an integer,
--              32-bit and 8-bit arithmetic with its wrap, counted loops, results with faults
--   Heap       kernel/heap.c: headers at addresses; init_heap, split, merge, malloc, calloc, free
--   Keyboard   kernel/keyboard/keyboard.c: the rings, the table of open files, on_event
--   Input      kernel/keyboard/input.c: key codes and the two character tables; get_line in GetLine
--   Tty        kernel/terminal/tty.c: cells, cursor, scrolling, control calls, reading a line
--   Print      kernel/print.c: print_int, print_hex, printf
--   Files      kernel/filesystem/estros-fs.c: harddrive_load_blocks and harddrive_write_blocks;
--              inodes on the disk in Inodes; fs_open, fs_read, fs_write, fs_seek in OpenFile;
--              the walk of a path and the listing of a directory in Directory; create_inode in
--              Directory/Create
--   Hdd        kernel/harddrive/hdd.c: the drive's sectors as a file; the sector's number in the
--              ports of kernel/harddrive/ata.c
--   Vfs        kernel/filesystem/virtual-filesystem.c: opening, closing and creating files, over
--              interfaces for the hash map and the driver
--   Paging     kernel/pager.c: page tables, and the list of free memory blocks
--   Process    kernel/process.c: the ring of processes; irq0_timer_c of
--              kernel/interrupts/irq_handlers.c in Timer
--   Strings    lib/goblibc/src/string.c and ctype.c
--   Numbers    lib/goblibc/src/stdlib.c: atoi, itoa and int_to_str
--   Brainfuck  apps/brainfuck/main.c: step_code; the editor and its modes in Modes and
--              RunMode
--   Calc       apps/calc/main.c: parse_input; execute in Execute
-- The children of each hold the abstract view and the proofs, and Tests its runs and witnesses.
--
-- How the model corresponds to the code. A function keeps its name; a part of a function that is
-- modelled on its own (a loop, a branch) has the function's words in its name, and static data is a
-- record. A `uint32_t` is a native number with its wrap written out, an `int` that can be negative
-- an integer. An address that the code must not touch, and a store outside an array, is `fault`.
-- What the code gets from elsewhere is an argument: the heap's answers in keyboard_open, get_line,
-- the pager and the file systems, the events that a keyboard file yields, the calculator's number
-- type. The hash map and the driver of the virtual file system are records of operations, with the
-- hash map's documented laws.
--
-- Fuel. malloc and free take one round for each block of the heap and one more, strlen and strcmp
-- one for each character and one more, the search for a process one for each process of the ring,
-- and their theorems give just that. pager_fill takes one for each free block before its range, a
-- read from a file's buffer two rounds, the timer's loop one for each process that it passes over,
-- and the walk of a path one for each of its names, with a round for each entry of a directory and
-- one more. parse_input takes one for each character of its input, and each round takes at least
-- one. Every other loop is recursion on what is left to do.
--
-- Not modelled: boot and assembler code, the interrupt controller and descriptor tables, the ATA
-- commands and status, and system calls, which are machine glue or only hand on to the parts above;
-- directories of the virtual file system. realloc of kernel/heap.c is left out too, since it moves
-- payload bytes and the model has headers only. The hash map, and the C library's formatting and scanning, are copies of other projects.
pub mod Prelude
pub mod Brainfuck
pub mod Calc
pub mod Files
pub mod Hdd
pub mod Heap
pub mod Keyboard
pub mod Input
pub mod Numbers
pub mod Print
pub mod Process
pub mod Paging
pub mod Strings
pub mod Vfs
pub mod Tty
