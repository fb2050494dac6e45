-- ===== src/Lib.antt =====
-- mach-emu: a machine emulator with an Intel 8080. A `Machine` joins a cpu, a clock, a memory
-- controller and an io controller by a shared bus: `Execute` runs one instruction, which puts its
-- requests on the bus and calls the machine back to have the controllers serve them, and between
-- two instructions the machine may put an interrupt on the bus.
--
-- Base         helpers: lists, Boolean tests, words (`u8`, `u16`), checks of a range by evaluation
-- Bits         `std::bitset<8>`, the type of a register, and its numeric value
-- Bus          SystemBus/include/SystemBus/SystemBus.h
-- Cpu          Cpu/source/8080.cpp and Cpu/include/Cpu/8080.h:
--   State      the private fields of `Intel8080`, `Reset`, `ReadFromAddress`, `WriteToAddress`, and
--              the state-passing effects the operations are written in
--   Adder      `Inr`, `Dcr`, `Add`, `Adc`, `Sub`, `Sbb`, `Cmp`, `Daa`
--   Logic      `Ana`, `Xra`, `Ora`, the rotates, `Cma`, `Stc`, `Cmc`
--   Transfer   moves, loads and stores, 16-bit counting and addition, `In` and `Out`
--   Control    the stack, jumps, calls, returns, restarts, `Ei`, `Di`, `Hlt`, `NotImplemented`
--   Decode     the `switch` of `Execute`: the call that each opcode makes; Table, the table that
--              replaces it under ENABLE_OPCODE_TABLE
--   Execute    `Fetch` and `Execute`
--   Protocol   the contract of the callback `process_`: how a request on the bus is served
--   Valid      what holds of the cpu between instructions, and that every operation keeps it
--   Snapshot   `GetState`, `Save` and `Load`, over a parameter for the text of the JSON document
-- Controller   Controller/include/Controller/IController.h and the values of `ISR`
-- CpuClock     CpuClock/source/CpuClock.cpp, over a parameter for the host's clock, the `Host`
-- Utils        Utils/source/Utils.cpp, over a parameter for base64, zlib and md5, the `Coding`
-- Options      Opt/source/Opt.cpp, over a parameter for the json library, the `Json`:
--   Update     what a call of `SetOptions` accepts
--   Invariant, CpuType, Deprecated  what holds of the options after it
-- Machine      Machine/source/Machine.cpp:
--   Controllers  `ProcessControllers`, which meets the contract
--   Loop       the loop of `Run`, for a machine without handlers for saving and loading, on any
--              clock
--   Run        the same loop on any machine, with the clock of CpuClock and the answers of Handlers
--   Lifecycle  the class as one object: `Run`, `WaitForCompletion` (Runs), `Save` (Saves), `GetState`
--              and the guards of all its operations; Histories, any calls of them one after the
--              other, from the constructor on
--   Setup      the setters of the controllers, and the controllers in `Run`
--   Settings   the constructor, `SetOptions`, `SetClockResolution`, `OnSave`, `OnLoad`
--   Handlers   the answers of `Run` to interrupts, with the futures of the callbacks
--   Images     the state of the machine that `Save` makes and `loadMachineState` restores
-- TestControllers  Tests/TestControllers: `MemoryController`, `BaseIoController`, `TestIoController`,
--              `CpmIoController`, and a machine made of the first and the third
-- Tests        the theorems at concrete states
--
-- An operation is a function from the state to its result, the ticks, and the new state, which is
-- the cpu, the bus and the world `W` that the callback works on. A `uint8_t` is a number below 256
-- or a `Bitset`, a `uint16_t` a number below 65536; wrapping is written out. A failed `assert` is
-- `none`, in a build that has assertions. The memory and the devices are parameters of the cpu's
-- theorems: a record of what they do for each request, with the laws of a memory.
--
-- One call of `Execute` has no loop. The machine's loop runs until the io controller asks it to
-- quit, which may be never, so `machine_loop` and `run_loop` take the number of their tests as fuel
-- and say so where it is spent; their theorems hold for each amount. The clock's `Tick` is a
-- parameter of the first, so that any clock will do, and the CpuClock's of the second, which has a
-- second fuel, `spins`: for `Tick`, which on a clock that moves ends with more fuel than nanoseconds
-- are owed, and for the loop that collects memory, which takes 65536 rounds of fuel a block.
--
-- A thread is not modelled as such: what the loop does in another thread happens when it is waited
-- for, and what a callback does, when the machine gets its result. Between those nothing else can
-- change the machine, since each operation but `WaitForCompletion` throws.
--
-- Not modelled: the printing under `dbg`; controllers that throw; what the callbacks' threads do at
-- the same time as the machine; the clock on a host other than that of `__GNUC__`; the factories,
-- which only construct; the Python bindings. Two cases that C++ leaves undefined are given a result:
-- a block of `rom` or `ram` without one of its keys (Opt/source/Opt.cpp) is a type error of the json
-- library, and a text that is written past the end of its string (Utils/source/Utils.cpp) ends the
-- answer to `ISR::Save` as an exception does.
pub mod Base
pub mod Bits
pub mod Bus
pub mod Cpu
pub mod CpuClock
pub mod Utils
pub mod Options
pub mod Controller
pub mod Machine
pub mod TestControllers
mod Tests
