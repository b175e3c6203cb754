-- ===== src/Lib.antt =====
-- openkernel: a teaching kernel for 32-bit x86.
--
-- Parts and files. Each part is a module with its definitions, and below it the modules of its
-- proofs and a module Tests with runs at concrete inputs.
--
-- - Base: numbers, Boolean tests, lists, updates of functions, bits.
-- - Memory.Heap is the allocator of src/kernel/memory.c: `heap_init`, `kmalloc`, `kfree`. The store
--   gives the header at an address; a list of cells that tile the heap from HEAP_START to its end
--   is the abstract view (Memory.Heap.Chain). Sizes wrap at 32 bits as in the source.
-- - Memory.Pmm is the page allocator of the same file: the bitmap as words, the counter and the
--   search hint. The printing and the delay loops of `pmm_init` are left out, and the address of
--   `_kernel_end` is an argument.
-- - Memory.Vmm is the paging code of that file: the directory and the tables are words of physical
--   memory. Memory.Vmm.Tables has the look-up of the processor and the states in which the tables
--   stand on pages of their own; Memory.Vmm.Space the address space of `vmm_init`, which
--   runs before paging is on; Memory.Vmm.Paging the functions on the tables whose loads and stores
--   go through the tables once it is; Memory.Boot the three allocators together.
-- - Fs is the filesystem of src/kernel/fs.c: the node array as a function of the slot, the current
--   directory and its text, and the heap, which file contents are allocated from through
--   `kmalloc` and `kfree`. Fs.Nodes has the slots and directory entries, Fs.Path the paths, Fs.File
--   the contents, Fs.Commands the operations of fs.h. An error is a constructor of Fs.Error with
--   the name of the code; `fault` is none of the codes and stands for what C would not define.
--   Fs.Listing has the printing operations, Fs.Editor the line editor, whose loops over the bytes
--   of the buffer are in Fs.Lines, and Fs.Shell the commands.
-- - Keyboard is the driver of src/kernel/keyboard.c: Keyboard.Tables the scancode tables of all
--   layouts, Keyboard.Layouts the choice of one, Keyboard.Events the interrupt handler, the ring of
--   scancodes and the conversion to characters, Keyboard.Startup `keyboard_init`.
-- - Process is the process table of src/kernel/process.c: slots of control blocks, pointers between
--   them as indices, the ready ring (Process.Ready), the scheduler (Process.Schedule), creation and
--   termination (Process.Lifecycle), and the wait queues (Process.Wait).
-- - Sync has the atomic operations of src/kernel/sync.h and the operations of the locks of
--   src/kernel/sync.c that do not wait; Sync.Spinlock has `spinlock_lock` as a step relation on
--   processors that share a lock, with one access of the lock a step, and Sync.Waiting the rounds
--   of `mutex_lock`.
-- - Interrupts is src/kernel/idt.c and isr_setup.c: the gates, the handlers of the lines, and what
--   the code does to the ports as a list. Segments is src/kernel/gdt.c, Timer src/kernel/timer.c,
--   whose handler calls the scheduler of Process, and Pci the scans of src/kernel/pci.c over a
--   configuration space that is an argument.
-- - Console is the text console of src/kernel/kernel.c: the history of lines, the view and the
--   screen, and `printk` (Console.Format).
-- - Graphics is the drawing. Graphics.Framebuffer is src/kernel/framebuffer.c; Graphics.Display the
--   drawing of src/kernel/display.c, Graphics.Registers its VGA tables and the saving of the card's
--   state, Graphics.Backends the probes and `display_init`; Graphics.Vbe is src/kernel/vbe.c and
--   Graphics.Font the glyphs of src/kernel/font.h. Graphics.Canvas has the loops that both drawing
--   files write out, over the operation that stores one pixel, which is an argument.
-- - Shell is most of the rest of src/kernel/kernel.c: the command that is typed (Shell.Input), the
--   log of the graphics console (Shell.Log), the prompt, the commands of the os (Shell.Commands),
--   the loop of kernel_main over the keys (Shell.Loop), whose line editor and commands are those of
--   Fs and whose text screen is that of Console, and the report of the boot before it (Shell.Start).
--
-- A record holds the variables of a file, and an operation is a function from the state to its
-- result and the state after it. A C string is the list of its bytes before the NUL. A buffer is
-- the list of its bytes. The lines that a function hands to `emit` are a list.
--
-- Fuel and bounds. `kmalloc` walks the block list with fuel of one round for each byte of
-- the heap, more blocks than fit; `fs_resolve` has fuel for one round a character; the doubling of
-- a file's buffer has 17 rounds, enough from one byte to 64 KB; the replacement of a line has one
-- round for each byte of the buffer, and takes at least one byte a round. That the fuel is enough
-- for `kmalloc`, `fs_resolve` and the doubling is part of the theorems on these operations. The
-- other loops count rounds as the source does, or recur on the list that they read.
--
-- The coordinates of rectangles wrap at 32 bits, and their loops run once for each row and column.
-- The waits of `keyboard_init` have the limits of the source; a round of `mutex_lock` is one step,
-- and nine of them reach the wait queue.
--
-- The bytes of the frame buffer are a function of the offset. Ports are an argument: Graphics.Ports
-- is a record of what a read and a write of a port or of device memory do to a machine, and
-- Keyboard.Startup takes the two operations that it needs.
--
-- Not modelled: the waiting loop of `timer_sleep`, `pci_config_write`, the messages of the
-- exceptions, the order in which `kernel_init` and the start of `kernel_main` call the other parts,
-- and the assembly with the loading of descriptor tables and of the page directory. They wait for
-- the timer, print fixed texts, only call the parts above in a row, or are not C.
pub mod Base
pub mod Memory
pub mod Fs
pub mod Keyboard
pub mod Process
pub mod Sync
pub mod Interrupts
pub mod Segments
pub mod Timer
pub mod Pci
pub mod Console
pub mod Graphics
pub mod Shell
