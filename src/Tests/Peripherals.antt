-- ===== src/Tests/Peripherals.antt =====
-- The theorems on the machine's controllers at concrete states.
use mach_emu.Base.{
  ℕ, ◌+◌, ◌≡◌, refl, false, ◌&&◌, ltb, leb, length, get_elem?, replicate, length-replicate, some,
  u8, arith, [], ◌∷◌,
}
use mach_emu.Bus.{memory_read, memory_write, io_read, io_write, idle}
use mach_emu.Cpu.Protocol.{request, answer}
use mach_emu.Controller.{isr_quit}
use mach_emu.Machine.Controllers.{process_controllers}
use mach_emu.Machine.Controllers.Requests.{process_controllers-request}
use mach_emu.TestControllers.Memory
use mach_emu.TestControllers.Memory.{
  fill, filled, memory_controller-IsMemory, MemoryController, LoadResult, loaded, load, read,
  cleared, read-load, load_whole,
}
use mach_emu.TestControllers.Io.{
  test_service, test_write, test_read, base_service, quiet, test_service_lem,
  test_service-test_write,
}
use mach_emu.TestControllers.Cpm.{CpmIo, dollar, SameBytes, cpm_write, take_message, cpm_write_lem}
use mach_emu.TestControllers.Board.{memory_controller, io_controller}
use mach_emu.Tests.{board, program, io}

process_controllers-request_example :
    let run = process_controllers (some memory_controller) (some io_controller) in
    (run (request memory_read 0x100 0) board ≡ (answer 0xcd, board))
    × (run (request memory_write 0x100 7) board ≡ (idle, memory_controller.write 0x100 7 board))
    × (run (request io_read 0x100 0) board ≡ (answer 0, board))
    × (run (request io_write 0x100 7) board ≡ (idle, io_controller.write 0x100 7 board))
unfolding board memory_controller io_controller Memory.memory_controller Memory.read Memory.fill
    test_read
process_controllers-request_example =
    process_controllers-request memory_controller io_controller 0x100 7 board

read-load_example :
    (n : MemoryController) × (load (some program) 0x100 cleared ≡ loaded n)
    × ((i x : ℕ) → get_elem? program i ≡ some x → (read (0x100 + i) n).0 ≡ u8 x)
    × ((a : ℕ)
        → (leb 0x100 a && ltb a (0x100 + length program)) ≡ false
        → (read a n).0 ≡ (read a cleared).0)
read-load_example = read-load program 0x100 cleared (omega arith) (omega arith)

load_whole_example : load (some (replicate 65536 0xcd)) 0 cleared ≡ loaded cleared
load_whole_example = load_whole (replicate 65536 0xcd) 0 cleared (length-replicate 65536 0xcd)

-- A second and a nanosecond after the last interrupt.
test_service_lem_example : test_service 1000000006 7 io ≡ (1, record io { last_time = 1000000006 })
unfolding base_service
test_service_lem_example = test_service_lem 1000000006 7 io (omega arith) (omega arith) refl

test_service-test_write_example : test_service 6 7 (test_write 0xff 1 io) ≡ (isr_quit, quiet io)
test_service-test_write_example = test_service-test_write 0xff 1 6 7 io refl refl

-- "Hi" and a dollar sign at 0x300.
abbrev greeting : MemoryController
greeting = filled (0x48 ∷ 0x69 ∷ dollar ∷ []) 0x300 cleared

abbrev console : CpmIo
console = record { base = io.base; message = 0x3e ∷ []; print_mode = 0; addr_hi = 0 }

cpm_write_lem_example :
    let ready = record console { print_mode = 9; addr_hi = 3 } in
    let printed = record ready { message = 0x3e ∷ 0x48 ∷ 0x69 ∷ [] } in
    (cpm_write Memory.memory_controller 3 0 9 console greeting
      ≡ some (record console { print_mode = 9 }, greeting))
    × (cpm_write Memory.memory_controller 3 1 3 (record console { print_mode = 9 }) greeting
        ≡ some (ready, greeting))
    × ((w : MemoryController) × (cpm_write Memory.memory_controller 3 2 0 ready greeting
          ≡ some (printed, w))
        × SameBytes Memory.memory_controller w greeting)
    × (take_message printed ≡ (0x3e ∷ 0x48 ∷ 0x69 ∷ [], record ready { message = [] }))
unfolding Memory.memory_controller fill cleared
cpm_write_lem_example =
    cpm_write_lem memory_controller-IsMemory 3 3 0 (0x48 ∷ 0x69 ∷ []) console greeting (omega arith)
      (omega arith) (refl, refl, (refl, refl, refl)) (omega arith)
