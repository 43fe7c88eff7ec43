-- ===== src/Lib.antt =====
-- PalleyOS, a 32-bit kernel in C: a model of its allocator, file system, disk driver, descriptor
-- tables, timer, paging, terminal, keyboard, shell and smaller drivers, and of the routines that
-- they share. Paths are those of the repository.
--
-- The parts, and the modules that model them:
-- * src/stdlib/kstdlib.c (Kstdlib): the string and memory routines, over a memory that maps an
--   address to a byte (Prelude.Memory). kstrlen and its kin walk until a NUL, and run on fuel.
-- * src/stdlib/kheap.c (Kheap): the kernel heap. Heap holds root_node, the headers by their address
--   and the content bytes; Kheap.Chain says which list of blocks the headers spell out.
--   Kheap.Compact, Kheap.Free, Kheap.FirstFit and Kheap.Alloc follow compactHeap, kheapFree and
--   kheapAlloc on that list, Kheap.Realloc and Kheap.Aligned model kheapRealloc and
--   kheapAlignedAlloc, and Kheap.Overlap shows where an allocation runs into the next block.
-- * src/stdlib/kstdio.c (Kstdio): the renderers of numbers and strings and kvsprintf, which use the
--   memory of Kstdlib. Kstdio.Format describes a format by its items.
-- * src/sknyfs.c (Sknyfs): the file system, over a disk driver that is a parameter (Driver), with
--   the allocation map, the file map, formatting and the creation of files. It uses kmemset,
--   kstrncpy and kstrcmp of Kstdlib. Sknyfs.Files.Stored and Entry have what a creation leaves on
--   the disk, Sknyfs.Files.Finding what the searches find, and Sknyfs.Files.Round joins them.
-- * src/idt.c and src/exceptions.c, addExceptionsHandlersToIdt (Idt): the interrupt descriptor table
--   with the registration of the exceptions and the two interrupt controllers, over the port
--   instructions of include/io.h (Ports), which are a parameter.
-- * src/gdt.c (Gdt): the segment descriptors and the task state.
-- * src/stdlib/tio.c and include/tio.h (Console, Vga): the terminal. Console holds the static
--   variables; Console.View has the text that the terminal refines and the view's moves,
--   Console.Text the writing of characters and strings, Console.Edit the moves of the cells in a
--   row, Console.Column the cursor's column, and Console.Overrun what happens at the buffer's end.
-- * src/ata.c (Disk): the ATA driver, over the timer, whose interrupts end its waits, and the ports.
--   Disk.Setup has the identification and ideInit, Disk.Range the checks of the transfers, the blocks
--   that they name and the words that are written. src/ide.c is a copy of src/ata.c.
-- * src/timer/timer.c (Timer): the counters, the timer interrupt and sleeping. initPITTimer
--   registers its handler with Idt.
-- * src/memory.c (Paging): the page directory, the frames and the page fault handler. Paging.Faults
--   follows its search, Paging.Frames has the whole frames of the memory, Paging.Start the set-up,
--   and Paging.Exclusive what holds over a run.
-- * src/rsdp.c and src/acpi.c (Acpi): the search for the root system description pointer, which uses
--   kmemcmp, and the checksums.
-- * src/keyboard_io.c (Keyboard): the queue of scan codes, the tables and the key step, and in
--   Keyboard.Line the line editor, which writes to the terminal; Keyboard.Cells, Keyboard.Editing,
--   Keyboard.Frame and Keyboard.Reading follow its buffer, its keys, the memory that it leaves and
--   its loop. Keyboard.Controller has the commands to the keyboard and its controller and kbInit;
--   Keyboard.Answers and Keyboard.Keysets follow their answers, Keyboard.SelfTests the replies to the
--   tests.
-- * src/stdlib/kstdio.c, kprintf (Kprintf): the rendering of Kstdio written to the terminal.
-- * src/exceptions.c (Exceptions): the handlers, over kprintf and the page fault handler of Paging;
--   Exceptions.Selector has the texts and the numbers in an error code, Exceptions.Shown what the
--   terminal shows of them.
-- * src/kshell.c (Shell): a round of the shell, which joins kprintf, kmemset and kbGetLine.
-- * src/serial.c (Serial), src/pic.c (Pic), src/cpuid.c (Cpuid) and src/pci.c (Pci): the serial
--   port, the controllers' registers, the processor's name and the scan of the buses. Serial.Uart,
--   Serial.Reception and Pic.Registers state what the devices' documents say. The beginning of
--   src/pci.c is missing from the repository: what stands there is a parameter.
--
-- A word of w bits is a number, with `% 2 ^ w` where the source wraps around. A loop without a bound
-- of its own runs on fuel; each theorem that such a loop ends says how much is enough, the length of
-- the string or of the list of blocks and one more. pitSleep runs on the number of interrupts that
-- arrive while it waits. Endless loops after a message are results of their own.
--
-- Not modelled: src/kernel.c, which is not C at this commit, src/syscall.c, which registers one
-- handler, src/ide.c, which is a copy of src/ata.c that is not built, and the assembly: the error
-- code of an exception is an argument of its handler. What a drive makes of a transfer is not
-- stated. Messages are dropped, but for those of kbInit, loadCpuid, the transfers of the disk driver
-- and the exceptions. Headers of the heap are told apart by their addresses and not by their bytes,
-- so that a header written over a part of another one is not represented, but where both begin at one
-- address; the theorem of a split asks for the room of a header.
pub mod Prelude
pub mod Ports
pub mod Acpi
pub mod Disk
pub mod Vga
pub mod Console
pub mod Kstdlib
pub mod Kheap
pub mod Kstdio
pub mod Sknyfs
pub mod Idt
pub mod Gdt
pub mod Timer
pub mod Paging
pub mod Keyboard
pub mod Kprintf
pub mod Exceptions
pub mod Serial
pub mod Pic
pub mod Cpuid
pub mod Pci
pub mod Shell
