-- ===== src/Lib.antt =====
-- Sunflower: a verification library for the kernel, its filesystem, their shared types and the build
-- tool.
--
-- The program. Sunflower is a small x86-64 kernel in Rust. The crate libutil holds the types that
-- guard its statics, libfs the on-disk format of its filesystem and the operations on the inode
-- table, and kernel the drivers: the text screen, the keyboard, the floppy controller, the clock,
-- the speaker and the interrupt and segment tables. The kernel's drivers keep their state in
-- statics, mostly of the types of libutil; libfs is given the read and write functions of a drive by
-- its caller, which in the kernel is floppy/floppyfs.rs over floppy/disk.rs; the keyboard's poll loop
-- changes the screen; the interrupt handlers run the motor, the scancode buffer and the clock. kmain
-- starts all of them in turn. seeder builds, checks and runs the kernel.
--
-- Which file models what. A module's functions have the names of the code they are translated from.
--   Sync         libutil/src: Sync/InitLater (InitLater), Sync/Exclusive (ExclusiveMap), Sync/Flag
--                (UnsafeFlag), all sync.rs, and Sync/Send (TableDescriptor, send.rs). Sync/Exclusive/Threads makes the atomic parts of
--                ExclusiveMap::map the steps of contexts that share a map; Sync/InitLater/Race does
--                the same for the parts of InitLater::init.
--   Fs           libfs/src: Fs/Ptr (BlockPtr, DualBlockPtr), Fs/InodePtr and Fs/Inode (lib.rs),
--                Fs/Header (header.rs), Fs/Bitmap and Fs/Table (table.rs), Fs/Mount (init.rs).
--                A drive is a state D with a read and a write function, both arguments. Structures
--                that the code reads as raw bytes are written out byte by byte, little-endian.
--   Vga          kernel/src/vga.rs and kernel/src/vga: the statics as one record (Vga/Screen), the
--                cursor (Vga/Cursor), the two text buffers (Vga/Buffers), printing (Vga/Print), the
--                start and the topbar (Vga/Topbar). Vga/Valid/Run is what the rest of the kernel asks
--                of it.
--   Interrupts   kernel/src/interrupts/idt.rs: the handlers with the registers and the stack, and
--                what is said about error codes (Interrupts/Codes).
--   Keyboard     kernel/src/interrupts/keyboard.rs: the start (Keyboard/Start), the scancode buffer
--                (Keyboard/Ring), held keys, system commands and characters (Keyboard/Keys), and the
--                poll (Keyboard/Poll); the poll loop and the question for a key of interrupts.rs
--                (Keyboard/Loop). The decoder of the pc_keyboard crate is an argument; texts
--                formatted elsewhere too.
--   Floppy       kernel/src/floppy.rs and kernel/src/floppy: statics, errors and the machine around
--                the driver (Floppy/Machine), the motor (Floppy/Motor), FIFO bytes (Floppy/Fifo),
--                commands and resets (Floppy/Command, with reset.rs), the start of the driver
--                (Floppy/Start), transfers (Floppy/Disk), transfers across tracks (Floppy/Chunks) and
--                the mounting of the drive (Floppy/FloppyFs, both floppyfs.rs). Floppy/Protocol says
--                when a byte may be written to the FIFO, for each operation and, in
--                Floppy/Protocol/Boot, for any calls after the start; Floppy/Sends and
--                Floppy/Receives are about controllers that always take or have a byte.
--   Kernel       kernel/src/interrupts/cont_access.rs (Kernel/ContAccess), kernel/src/time.rs
--                (Kernel/Time), kernel/src/interrupts/pic.rs (Kernel/Pic), and the descriptors of
--                kernel/src/interrupts/idt.rs and kernel/src/gdt.rs (Kernel/Descriptors).
--   Startup      kernel/src/startup.rs, the startup tasks of gdt.rs, interrupts.rs, pic.rs and time.rs
--                (Startup/Tasks), those of the keyboard, the floppy drive and its filesystem
--                (Startup/Tasks/Devices, on Keyboard/Start, Floppy/Start and Floppy/FloppyFs), the
--                clock's handler and the wait for it (Startup/Rtc), and kmain of kernel/src/main.rs
--                (Startup/Kmain).
--   Speaker      kernel/src/speaker.rs.
--   Panic        kernel/src/panic.rs: kpanic with the loop that waits for a key, and the stack trace.
--   Seeder       seeder/src/main.rs and seeder/src/cmd.rs: what is run, where and in which order.
--   Common       Boolean tests, lists, texts, binary digits, bytes, and what a call ends in: a value,
--                an error, a panic, or fuel that ran out (Common/Outcome).
--
-- Conventions. Numbers are native naturals; a machine word keeps its wrap-around as a remainder,
-- since the kernel is built in release mode, here without its feature debug_info, so that warnings
-- and debug lines print nothing. A Rust panic (an index out of bounds, a badbug) is an outcome of its
-- own. What a port or the clock answers is an oracle that may depend on every access made before
-- (Floppy/Machine, World); the timer's handler runs between the driver's operations. What else the
-- hardware does is an argument: the registers of the clock at each of its interrupts, what the
-- processor stores of the tables that were loaded, the registers that a called function leaves.
--
-- Bounds and fuel. Polling loops of the floppy driver take fuel, one unit for each round, and each
-- round looks at the clock; Floppy/Disk/Wait says how much the wait for the controller needs, and
-- Floppy/Sends and Floppy/Receives need one unit. The driver's reset sends commands and a command that
-- fails resets the driver, so Floppy/Command bounds how deep resets nest; that the starts of the driver
-- and of its filesystem return within their fuel is a hypothesis of the theorem about kmain. The loop
-- at the end of kpanic runs for a number of rounds that is an argument, and what is proved of it holds
-- for every number. All other loops are structural: over the blocks up to MAX_VAL, the 140 inodes, the
-- bytes of a text, the rounds of a retry, the interrupts of the clock, the notes of a song, or the
-- pieces of a transfer, of which there are at most as many as bytes.
--
-- Not modelled: port access and the instructions that load tables, formatting of texts, the ps2
-- crate (its commands are the history of Keyboard/Start), the macros around kpanic, system information
-- (kernel/src/sysinfo.rs), and the arguments of seeder, which clap parses. The answer to the question
-- of init_floppyfs is an argument of Floppy/FloppyFs; Keyboard/Loop is about where it comes from; what
-- init_floppyfs prints is left out. In kmain the identification of the processor is
-- an argument, and the port writes of the handlers that run meanwhile are left out.
pub mod Common
pub mod Sync
pub mod Fs
pub mod Vga
pub mod Interrupts
pub mod Keyboard
pub mod Floppy
pub mod Kernel
pub mod Startup
pub mod Speaker
pub mod Panic
pub mod Seeder
