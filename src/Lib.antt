-- ===== src/Lib.antt =====
-- dmtimer: a hierarchical timing wheel in C++. A timer node (`CDMTimerNode`) sets and kills timers
-- under ids of its own; the timer module (`CDMTimerModule`, a singleton) keeps all timers in five
-- vectors of lists and calls the nodes back; the elements come from a pool (`CDynamicRapidPool`).
--
-- The parts, and the files that model them:
-- - Base: names of the library passed on, 64-bit and 32-bit words, lists, arrays of slots as
--   functions, and the outcome of a call (a value, an exception, an abort, or fuel used up).
-- - Sink: include/dmtimersink.h, the geometry of the wheel and `CDMTimerElement` (`Reset`, `Kill`).
-- - DmList: include/dmlist.h, the functions on rings of `list_head`, in a memory of two pointers
--   per address. DmList/Ring, DmList/Remove, DmList/Replace, DmList/Move, DmList/Splice and
--   DmList/Cut hold the theorems, which take a ring for the sequence of its entries. DmList/Hash
--   has the lists with a single pointer for the head, DmList/Hash/Chain and DmList/Hash/Changes
--   their theorems.
-- - Queue: include/dmqueue.h, `CDMQueue`; Queue/Fifo compares it with a bounded sequence.
-- - Singleton: include/dmsingleton.h, `CDMSingleton` and `CDMSingletonFrame`; Singleton/Frame says
--   what the frame lists and releases, and Singleton/Local has `TSingleton` and `CDMSafeSingleton`.
-- - RapidPool: include/dmrapidpool.h, the pool of `S` slots with its free list (`fetch_slot`,
--   `release_slot`) and the pool of pools (`fetch_obj`, `release_obj`). RapidPool/Slots and
--   RapidPool/Dynamic hold the theorems, RapidPool/Addresses the arithmetic of objects' addresses.
-- - Wheel: the vectors `m_tv1` .. `m_tv5` of src/dmtimermodule.cpp, with `AddTimerElement` and the
--   cascades. Wheel/Due says what times a slot stands for, Wheel/Occurs counts entries,
--   Wheel/Timely and Wheel/Cascade keep the invariant, and Wheel/OnTime says what `Run` finds at a
--   tick.
-- - World: the state that module and nodes share, the clock (`GetBootTime`) and the elements.
--   World/Map is the `std::map` of a node, World/Node is src/dmtimernode.cpp, World/Run is `Run`,
--   World/Delay is what node and module ask of Cron, and World/Life is `Init`, `__ReleaseElement`
--   and `UnInit`. World/Timers says what a request or `KillTimer` does to a node's timers,
--   World/CronTimers what `SetTimerCron` does with a text, and World/Release what `UnInit` leaves.
--   World/Clock has `GetTickCount32`, `CDMTimeElapse`, and what many readings of the clock add up to.
--   World/Ready is the invariant of the whole state; its children take it through single changes
--   (Changes), the nodes' methods (Requests), the work list of a tick (Fire), the head of a round
--   (Tick), the loop (Rounds) and the constructor (Start). World/Kept says what it takes that a
--   property of the state is kept by every request (Kept/Calls), round of the work list (Kept/Fire)
--   and `Run` (Kept/Rounds); two properties do so: World/Owned ties the nodes' maps to the wheel, and
--   World/Tight says that the wheel has every live object of the pool. World/OnTime says which calls
--   of the timers' code `Run` makes, and World/Reach is the states that the program reaches.
-- - Cron: include/dmcroncpp.h, the traits and `cronexpr`. Cron/Text has the text functions
--   (`split`, `to_cron_int`, `replace_ordinals`), Cron/Field one field of an expression
--   (`make_range`, `set_cron_field`), with theorems in Field/Steps and Field/Sound, and Cron/Make
--   is `make_cron` and the operators, with Make/Sound and Make/Print. Cron/Date is `std::tm` and
--   the functions that change a field, and Cron/Next is `find_next` and `cron_next`; Next/SetBit,
--   Next/Regular (what is asked of `mktime`), Next/Changes, Next/Resets, Next/Parts, Next/Moves,
--   Next/Daily, Next/Ends and Next/Answer lead to what `cron_next` answers. Cron/Sample is a
--   calendar.
-- - Util: include/dmutil.h and include/dmos.h where the system is POSIX: `DMCreateDirectories` over
--   any system with `access`, `stat` and `mkdir` (`FileSystem`), and the path of the program.
--   Util/Paths says what `strrchr` cuts, and Util/Directories what is asked of the system and what
--   `DMCreateDirectories` does then. Util/Formats has ports, dates as text, and the work path.
-- - Threads: include/dmthread.h, `CDMThreadCtrl` with the threads that it starts, as steps in any
--   order; Threads/Session is an owner that starts, stops, waits and releases.
-- - Console: include/dmconsole.h, `HDMConsoleMgr`; Console/Once says which sink it calls.
-- - Console/Tests, Cron/Tests, DmList/Tests, DmList/Hash/Tests, Queue/Tests, RapidPool/Tests,
--   Singleton/Tests, Threads/Tests, Util/Tests, Wheel/Tests, World/ClockTests, World/CronTests,
--   World/ReachTests and World/Tests run the model on concrete inputs.
--
-- How the model stands to the code. A pointer to an element is a number: the array's number times
-- the array's size, plus the slot. A list of a slot of the wheel is the sequence of its entries,
-- which DmList justifies; of an entry's pointers the wheel only keeps whether `next` is null
-- (`linked`). A node is a number. The timers' code and the sinks are a parameter (`Env`): a call
-- gives the calls of the nodes' methods and of `SetSpeed` that it makes, with the readings of
-- `GetTickCount32` that they meet. `time(0)`, the calendar and `typeid` are parameters too. The
-- payload `dm::any` and `std::function` are handles. In Cron, `std::mktime` and `localtime_r` are
-- the parameter `Calendar`; an `int` is its 32 bits, a `time_t` its 64 bits, a `std::bitset` a
-- function into Bool, and `std::stoul` and `std::getline` are written out as the C++ standard has
-- them. With assertions compiled in, a failed `assert` stops the call, and so does `abort`.
--
-- Bounds. `Run` takes as many rounds as the clock has advanced, so its fuel is any number above
-- that. Times stay below 2 ^ 62 ms, that is more than a hundred million years; the 64-bit
-- differences of `AddTimerElement` then keep their sign. A slot flag has 16 bits and a pool number
-- 15 bits, as in the code. The loops over a `uint8_t` in `set_cron_field` get 256 rounds, and the
-- recursion of `find_next` a depth that is an argument. `DMCreateDirectories` calls itself with a
-- shorter path each time, so fuel above the length of the path is enough.
--
-- `readlink`, `signal`, `stat` and the like answer as an argument or a parameter says. A thread takes
-- its steps between any two steps of the owner, and a signal arrives between any two calls; one that is
-- not hooked ends the program. A sum of `int`s that overflows is undefined in Queue, and so is a call
-- through a pointer to a destroyed object in Singleton.
--
-- Not modelled: the macros of include/dmlist.h that walk a list, `to_tm` and `to_string` of
-- include/dmcroncpp.h, which read and print with streams, the functions of include/dmutil.h that
-- print and read addresses and ports, and all branches for Windows and macOS.
-- include/dmtypes.h has only macros. include/dmany.h and test/dmtimeapitest/gtest* are copies of
-- other projects, and the programs under test/ print what timers do. The states of World/Reach leave
-- out `CopyFrom`, whose copy of an element that is being called is not due where it hangs, and what
-- `cron_next` answers is proved for expressions with every day and month, at times when the clocks of
-- the zone are not changed. Memory is never exhausted,
-- and the calls of `delete` are left out but for the control of a thread.
pub mod Base
pub mod Sink
pub mod DmList
pub mod Queue
pub mod Singleton
pub mod Cron
pub mod RapidPool
pub mod Wheel
pub mod World
pub mod Util
pub mod Threads
pub mod Console
