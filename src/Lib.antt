-- ===== src/Lib.antt =====
-- ProjectDelta, a game engine in C++, and its launcher. This library models the parts of the program
-- that carry its own logic and proves what they do.
--
-- The engine's core keeps one execution context for each thread in one reserved slab of address
-- space. MemoryConfig_Initialize plans how much memory is to be locked; ThreadContext_Initialize cuts
-- the slab into slices, one for each thread, and gives each thread its arenas and each worker its task
-- queue; the main thread hands batches of tasks to the queues, and steals back what is left.
--
-- Word (Align, Bits): `size_t` sums that wrap, and the macro ALIGN of
--   Engine/src/delta/core/ThreadContext.cpp with `&` and `~` as the source writes them.
-- Build (Ran): `assert`, which stops a debug build and is nothing in a release build; Ran adds behaviour
--   that C++ leaves undefined and loops that do not end.
-- Pal: Engine/src/delta/platform/os_internal.h, the platform layer as a record of operations over a
--   state of the operating system. What the system answers is a parameter of all that follows.
-- Win32 (Cpu, Cores, Privileges, Start, Memory, Threads, Affinity, Naming, Ticks,
--   Layer): Engine/src/delta/platform/os_win32.cpp, over the functions of Windows.h as a parameter: Start is
--   Initialize, Cores its loop over the processor cores, Privileges SetProcessPrivileges, Memory the
--   memory calls, timestamps and getMemoryStatus, Threads the threads and semaphores, Naming
--   Thread_SetName, Ticks the two conversions of ticks to doubles, whose
--   arithmetic is a parameter. Layer fills Pal for a thread that has no context yet, whose `new`
--   takes its memory from the C heap.
-- MemoryMap (Main, Worker, Layout): the constants of Engine/src/delta/core/MemoryConfig.h.
-- EngineTypes (Sizes): the structures of Engine/src/delta/core/EngineTypes.h, and their sizes on
--   amd64 by the layout rules for standard-layout structures.
-- MemoryConfig (Budget): Engine/src/delta/core/MemoryConfig.cpp.
-- Arena (Block, Linear, Fast, Run, Slow): InitializeArena, ThreadArena_Allocate and ThreadArena_Reset of
--   Engine/src/delta/core/ThreadContext.cpp.
-- TaskQueue (Cells, Contents, Deque, Ends, Refine, Run, Full, Init): InitializeQueue,
--   TaskQueue_Push, TaskQueue_Pop and TaskQueue_Steal of the same file, called by one thread at a time.
-- Race (Order, Fair, Popping, Stealing, Exclusive, Lost): the same three functions under two threads
--   at once, as step relations on `top`, `bottom` and the place each thread has come to. An access is
--   one step, and all of them are seen in one order (sequential consistency).
-- ThreadContext (Place, Slots, Finish, Ready, Current): the globals, ThreadContext_Initialize,
--   ThreadContext_Shutdown and the getters of the same file, and the inline helpers of ThreadContext.h.
-- Scheduler (Held, All, Crew, Batch, Turn, Steal, Sync, Once, Start): Scheduler_ProcessTaskBatch and
--   Scheduler_Sync of the same file, by the main thread while the workers do nothing. What a task does
--   to the caller's transient arena is a parameter. Held is one worker's queue as a list, Crew all of
--   them, Turn the order of the visits, Once and Start the whole of a batch and a sync.
-- Worker (Asleep, Faults, Init, Room, Placed, Listed, Many): WorkerProc of Engine/src/delta/core/Worker.cpp
--   beside the main thread's pushes and steals, as step relations on a queue, the two flags and the
--   semaphore; there a call of the queue is one step, so that these are the runs in which no two calls of it
--   overlap. Init is Worker_Init and Worker_Shutdown, and the
--   operators `new` of memory.h; Room, Placed and Listed are lemmas for Many, which has Worker_Init
--   as a whole.
-- Engine (Heap, Slab, Session, Started, Reached, Running, Stopped, Batch, Frames,
--   Calm, Playing, Life, Reused):
--   Engine/src/delta/core/engine.cpp. Allocate and Free over the C heap; Session is Initialize, Update
--   and Shutdown, which put the parts above together.
-- Launcher (Load, Main, Loop, Kept, Wired, Hosted, Plays, Paired): Launcher/main.cpp. The file system,
--   the dynamic loader, the engine and the game behind its three functions are a parameter; the calls
--   that are made are recorded. Wired puts the trigger's functions into the launcher, Hosted the
--   engine's; Kept, Plays and Paired are about the world that they share.
-- HelloWorldGame (Endless): Examples/HelloWorldGame/game.cpp, whose functions are given isRunning and the
--   system's information; Endless runs it in the launcher.
-- Trigger (Signals): DeltaTrigger/lib/src/trigger/trigger.cpp and DeltaTrigger/main.cpp, over the socket
--   calls of the operating system.
-- Tests: the theorems at concrete inputs.
--
-- Addresses are natural numbers below 2 ^ 64, and every sum of the source is taken modulo 2 ^ 64. The
-- indices of a task queue are int64_t, whose overflow is undefined in C++: they are integers, and the
-- theorems say up to which index they speak. A task is the address of its function and its payload;
-- what a task does when it is called is not modelled, a call is recorded. The memory of a queue is a
-- function from addresses to words of 8 bytes: the program's arrays start at multiples of 8.
--
-- The launcher's loop, the loop that drains a socket and the loop of Scheduler_Sync run on fuel; the
-- theorems give a fuel that is enough, for the launcher from a number that falls with each turn, as the
-- game decides when it ends, for Scheduler_Sync with w workers w + 2 turns for each job and as many more.
-- The loop over the cores takes one turn for each record; its fuel is one more than the buffer's bytes.
--
-- Not modelled: memory orders weaker than sequential consistency; console output, but for the lines of
-- Game_OnInit; the macros of Engine/src/delta/platform/compiler.h, which name compilers, and the build
-- files. What is left of the sources is includes, declarations of what is modelled, and type names.
mod Prelude
pub mod Word
pub mod Build
pub mod Pal
pub mod Win32
pub mod MemoryMap
pub mod EngineTypes
pub mod MemoryConfig
pub mod Arena
pub mod TaskQueue
pub mod Race
pub mod ThreadContext
pub mod Scheduler
pub mod Worker
pub mod Engine
pub mod Launcher
pub mod HelloWorldGame
pub mod Trigger
mod Tests
