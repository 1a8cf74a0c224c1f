-- ===== src/Lib.antt =====
-- netOS, a small teaching kernel with a FAT439 file system and a shell.
--
-- Base holds shared names: tests, lists, slices of a memory, uint32_t arithmetic.
--
-- Kernel.Block models BlockDevice (kernel/block.cc): read and readFully over the device's virtual
-- readBlock, which is a parameter. Kernel.Fs models reading a file (kernel/fs.h, kernel/fs.cc): the
-- walk along the file allocation table, OpenFile::read and readFully, Fat439File::read and
-- File::readFully. The loops take as much fuel as bytes are asked for, plus one: each round that goes
-- on reads at least one byte. The 512-byte blocks of kernel/ide.h are fixed there.
--
-- Kernel.Fs.Directory models opening a file and Fat439Directory::lookup. Fat439 models fat439/mkfs.c, which
-- builds an image on the host, with the image as the three parts that it has in the mapped file, and puts
-- it together with Kernel.Fs: a file that mkfs stores is one that the kernel finds and reads. oneFile takes
-- one round more than the file has bytes.
--
-- Kernel.Fs.Write models OpenFile::write with findFreeBlock, addToAvail and BlockDevice::write. writeBlock of
-- kernel/ide.cc fills a block up behind the bytes, with zeros but for one byte from behind the buffer when
-- their number is odd: the parameter `pad`. The loop takes one round more than there are bytes, and a walk along
-- the table one step more than there are blocks. The table and the super block stay in memory, as in the code.
-- Kernel.Fs.OpenFiles models openFile and closeFile with the table of open files.
--
-- Kernel.Process models the scheduler (kernel/process.cc) with the semaphores (kernel/semaphore.cc)
-- on one processor. A context switch ends the turn of a process: what it has still to do in the kernel
-- is a number of calls of enable, kept for it until it is dispatched again. A semaphore's count is a
-- natural number below 2 ^ 31, as with every semaphore made with a count that is not negative; where up would
-- make it overflow there is no result. A queue is a list of
-- processes. The idle process exists from the start. Not modelled: the check of the stack size and
-- checkKilled in dispatch, exit, kill and interrupts.
--
-- Kernel.Timers models sleepUntil and tick of kernel/process.cc and the handler of kernel/pit.cc: the list
-- of timers with the processes that wait for each, where Kernel.Process leaves timers out.
--
-- Kernel.Queue models SimpleQueue of kernel/queue.h with its linked nodes; the scheduler and the timers have
-- their queues as lists.
--
-- Kernel.Keyboard models kernel/kbd.cc: ul, kbd_get and the handler, on a given list of scan codes, with
-- the characters that go into the bounded buffer as a list. A switch is the list of its cases.
--
-- Kernel.Table models open, close, closeAll and get of kernel/table.cc with the reference counts of
-- kernel/resource.h: a resource is a number, and the counts are uint32_t. An operation is one step, as
-- the table's mutex makes it; a negative index, which close and get refuse, has no counterpart.
--
-- Kernel.Vga and Kernel.Console model kernel/vga.cc and kernel/console.cc: the two bytes of each place of
-- the screen, the cursor and its row and column, with ROWS and COLS as parameters. An access outside the
-- frame is no result, and so is a row above the screen, which the code goes on to write to.
--
-- Kernel.Str models the functions of kernel/string.cc but those that are string instructions. strtol
-- reads signed numbers of 32 bits, as a long is, and where they overflow it has no result.
--
-- Kernel.Heap models the heap of kernel/heap.cc, which user/heap.c has too, on an array of ints, with a
-- parameter for whether a failed check panics, which also tells the kernel's unsigned sizes from the signed
-- ones of user/heap.c. A pointer is the index of an int. Kernel.Heap.Ghost says what
-- a whole heap is: blocks with equal headers and footers tile the array between two taken ones, and the
-- free ones are linked both ways. The loop of malloc takes as fuel one round more than the list has ranks,
-- a number that grows by one with each call.
--
-- Kernel.Vmm models PhysMem and AddressSpace of kernel/vmm.cc: physical memory as words in frames of 4096
-- bytes, where a frame is cleared and copied as a whole, the masks as quotients and remainders. The list of
-- free frames is threaded through the frames, as in the code. The loops over a directory and a table take the
-- 512 or 1024 rounds of the code; the loop of the constructor has a round for each of the 2 ^ 20 pages of the
-- address space. Kernel.Vmm.Frames says what each frame is for, Kernel.Vmm.Space what an address space is, Kernel.Vmm.Exec what
-- exec has given back.
-- A call is one step. Not modelled there: the cache of the processor, activate and dump.
--
-- Kernel.Execv models how execv of kernel/process.cc puts the arguments and the program into the memory of the
-- process, as bytes by address; a load below the upper half has no result. A read of the program is the slice of its file that Kernel.Fs.ReadFile shows
-- it to be; a field of a header that the file does not have is no result. The loop over the program headers takes
-- as many rounds as the header counts.
--
-- Kernel.Mmu models the descriptors of kernel/mmu.cc: two words whose fields are set and read through masks,
-- which are written as quotients and remainders by powers of 2.
--
-- Kernel.BoundedBuffer models kernel/bb.h, which holds the characters of the keyboard: put and get as
-- single steps over the array and the counts of the two semaphores, and a call that waits as no result.
--
-- User.Memory models buffers: lists of bytes, where a block that malloc returns has the size asked for
-- and unknown content, and an access outside a buffer is a fault. User.Libstr models trimSpace and
-- tokenize of user/libstr.c over them, and says what a line's words are, as README describes the shell.
-- User.Libstr.Edits models append, addChar, deleteChar and strEquals; the frees of their arguments are
-- left out. User.Gets models gets of user/libc.c with its editing of the line, over the characters that
-- getchar returns, with a malloc that succeeds. User.Decimal models putdec of user/libc.c, with its recursion on fuel.
--
-- User.Edit models how main of user/edit.c reads a file into its list of lines, and writeFile. The linked nodes
-- are the list of their lines.
--
-- User.Getbuf models getbuf of user/edit.c, the keys of the editor, with main from the file's bytes on: the blocks of
-- the lines around the cursor's line, and the offset in it. What goes to the screen is left out, and with it the line
-- on top of the screen, which no change of a line depends on; realloc is what it promises. Where two lines are joined
-- the frees are modelled, since a block is freed twice there.
--
-- Not modelled: realloc of user/heap.c, forkMe of the tables, system calls, the screen of the editor, the other
-- user programs; kernel/snprintf.cc, kernel/pcireg.h and kernel/elf.h are copies of other projects' code; hardware access and boot code are outside the model.
pub mod Base
pub mod Kernel
pub mod User
pub mod Fat439
