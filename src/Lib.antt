-- ===== src/Lib.antt =====
-- Nachos is an instructional operating system: a kernel in C++ that runs on a simulated MIPS
-- machine, with threads, a file system, paging for user programs and a network. This library
-- models parts of the kernel as functions and states what they do. Paths are relative to
-- NachOSx64/code.
--
-- BitMap: userprog/bitmap.h and bitmap.cc. A map keeps 32-bit words as natural numbers below
--     2^32; Mark, Clear, Test, Find and NumClear are mark, clear, test, find and num_clear,
--     the constructor is create. Bits has the word operations.
-- FileHeader: filesys/filehdr.h and filehdr.cc. Allocate, Deallocate, ByteToSector and
--     FileLength over the fixed table dataSectors. It uses BitMap.
-- Directory: filesys/directory.h and directory.cc. FindIndex, Find, Add, Remove, List and the
--     constructor; Directory.Find is about what Find answers; CString has strncmp and strncpy
--     as far as the directory calls them.
-- FileSystem: filesys/filesys.h and filesys.cc. The constructor with format set, Create, Open
--     and Remove, which call the three modules above. Accounting counts the uses of each
--     sector, Layout says when a disk is consistent.
-- OpenFilesTable: userprog/openfilestable.h and openfilestable.cc, the handles of a user
--     program's open files, over a BitMap.
-- MipsSim: machine/mipssim.h and mipssim.cc. OpCodes has the operations and the two tables,
--     Decoding is Instruction::Decode, mult is Mult with its loop mult_loop. Words has the
--     32-bit words that an int and an unsigned int are.
-- Translate: machine/translate.h and translate.cc, with the constants of machine/machine.h.
--     translate is Machine::Translate, cut where the source branches: locate finds the entry,
--     use_entry uses it.
-- Execution: Machine::OneInstruction and Machine::DelayedLoad of machine/mipssim.cc. execute
--     is the switch, with one definition for each group of cases that share their code;
--     MipsSim.Operators has the values that they compute, MipsSim.Meaning is about what these
--     are for; advance is the end of the function. The record Kernel is the interface to
--     ReadMem, WriteMem and RaiseException. Where the host's division stops the program (the
--     least int by -1) the outcome is abort.
-- SortedList: threads/list.h. A list is the chain of its elements, so the pointers first, last
--     and next are not told apart from it; keys are natural numbers.
-- Threads: threads/thread.cc, scheduler.cc and synch.cc. A System has the statuses, the ready
--     list, the lock with its semaphore and the condition's queue. Operations run up to the
--     switch to another thread; stage says where a thread goes on. Reachable.Step is one
--     operation of the thread that runs, so that every sequence of steps is an interleaving.
--     Places says where each thread may be; Switching, Scheduling, Waiting, Releasing and
--     Monitor keep to it, one group of operations each.
-- Interrupts: machine/interrupt.cc and timer.cc. What a handler does is a parameter, the
--     record Devices. The loops of OneTick and Idle take fuel; Handlers is about several
--     handlers one behind the other, Firing about one round of the loops and Loop about all of
--     them. Ticking shows that one round more than there are pending interrupts is enough,
--     where handlers schedule for later times.
-- Paging: userprog/invertedpagetables.h and memoryswap.h. Victims is the second chance loop,
--     which takes fuel; more rounds than the queue is long are enough. Uses is the search for
--     the least used frame, SwapArea the swap area.
-- VirtualMemory: the functions of userprog/addrspace.cc that a kernel with VM has, and
--     NachOS_PageFaultException of userprog/exception.cc. A Vm is the state that they share
--     with Paging. Contents is about what is loaded into a frame; Full, Frames and Faults are
--     its faults with all frames taken, with frames outside the memory, and the plain one.
-- AddrSpace: the constructors and the destructor of userprog/addrspace.cc in a kernel without
--     VM, over a BitMap of frames.
-- Disk: machine/disk.h and disk.cc. request is ReadRequest and WriteRequest, with the time
--     that they take; Latency is about that time.
-- Console: machine/console.h and console.cc, with the calls of machine/sysdep.cc that it uses,
--     over the host's open, close, select, read and write. Session is about what is typed and
--     shown while the device is polled and used: Steps has each operation, Order any sequence
--     of them.
-- OpenFile: filesys/openfile.h, openfile.cc and synchdisk.cc, with FetchFrom and WriteBack of
--     filesys/filehdr.cc. A Disk is the list of its sectors. Buffers is about copies of bytes,
--     Reading and Writing about the two loops over sectors, Ends about the partial sectors
--     that WriteAt reads first, Updates about WriteAt as a whole, NewFile and Headers about
--     files that Allocate made and headers on the disk.
-- Storage: FetchFrom and WriteBack of filesys/directory.cc and userprog/bitmap.cc, through an
--     OpenFile. Entries is about the bytes of directory entries, Tables about both files.
-- Coff: bin/coff2noff.c, which makes the Executable that VirtualMemory loads from. Segments
--     says what a segment holds, Layout is about the bytes of the segments, Conversion about
--     the loop and the tool, Contiguous about two sections without data.
-- SystemCalls: userprog/exception.cc. A System is the machine, the table of open files, the
--     host and what is asked of the scheduler. Files, Sockets and Dispatch have the handlers
--     and ExceptionHandler; call is the inner switch. The loop of Create takes fuel, since
--     nothing bounds the length of a name; that of Open has more than the characters of its
--     array.
-- Post: network/post.h and post.cc with the device of machine/network.h and network.cc. A
--     Network is the device of one machine, a PostOffice its boxes. Wire is about headers as
--     bytes, Delivery about mail between two machines.
-- Memory: ReadMem and WriteMem of machine/translate.cc and RaiseException of
--     machine/machine.cc, the Kernel of Execution over the machine of Translate. Values is
--     about their two switches, Accesses about a write and a read, and Laws shows that they
--     keep what Execution relies on.
-- UserState: the registers of a user program over a context switch (threads/thread.cc), at its
--     start (userprog/addrspace.cc) and at the return from a system call
--     (userprog/exception.cc).
-- Prelude: truth values, lists, integers and outcomes that the parts share. Examples: runs on
--     concrete input.
--
-- An operation returns an Outcome: ok with its result, abort when an ASSERT fails (the kernel
-- stops), overrun when the code reads or writes outside an array. Memory that new or new[] returns
-- is not cleared, so it is an argument of the constructor. Loops are recursive functions on the
-- number of rounds that the for statement makes, so no bound is added to them; a loop without such
-- a bound takes fuel, and overrun stands for running out of it.
--
-- The disk of FileSystem holds, for freeMapFile, for directoryFile and for each header sector, the
-- value that was written last; Storage has the same for Directory and BitMap, over one file. Sizes
-- of files are natural numbers, so a negative initialSize is outside the model, and so is the
-- overflow of a 32-bit int: no number here comes near 2^31. Calls do not overlap, as the source
-- assumes.
--
-- Not modelled: host stacks and the switch between them, and the writes of whole tables and
-- headers within FileSystem, which keeps them as values. Its sockets are the host's: what they
-- carry is a list of bytes. In a kernel built with VM, Translate also tells the inverted page
-- table which frame is used; the model is of a kernel without VM. Output (Print, List to the
-- terminal), the rest of the host interface (machine/sysdep.cc) and the other C programs under bin
-- and test stay out.
pub mod Prelude
pub mod Bits
pub mod Words
pub mod BitMap
pub mod FileHeader
pub mod OpenFilesTable
pub mod CString
pub mod Directory
pub mod FileSystem
pub mod MipsSim
pub mod Translate
pub mod Execution
pub mod SortedList
pub mod Examples
pub mod Threads
pub mod Interrupts
pub mod Paging
pub mod VirtualMemory
pub mod AddrSpace
pub mod Post
pub mod Memory
pub mod UserState
pub mod OpenFile
pub mod Disk
pub mod SystemCalls
pub mod Storage
pub mod Console
pub mod Coff
