-- ===== src/Tests.antt =====
-- A machine on which the theorems are tried out: the test controllers, and a program that calls a
-- subroutine.
mod Processor
mod Peripherals
mod Running
mod Values
mod Settings
mod Timing
mod Coding
mod Saving
mod Pending
mod Lifecycle
mod Histories
mod Deadline
mod Restoring
use mach_emu.Base.{ℕ, Bool, true, false, List, [], ◌∷◌}
use mach_emu.Bits.{Bitset, no_bits}
use mach_emu.Cpu.State.{Intel8080, initial_status}
use mach_emu.Cpu.Valid.{IsValid}
use mach_emu.TestControllers.Memory.{MemoryController, filled, cleared}
use mach_emu.TestControllers.Io.{TestIo}
use mach_emu.TestControllers.Board.{Board}

-- At 0x100: CALL 0x0205, then IN 0.
abbrev program : List ℕ
program = 0xcd ∷ 0x05 ∷ 0x02 ∷ 0xdb ∷ 0 ∷ []

abbrev io : TestIo
io = record {
  base = record { power_off = false; save = false; load = false; save_cycle_count = 1000 };
  last_time = 5;
  device_data = 0xaa;
}

unfoldable board : Board
unfolding cleared
board = record { memory = filled program 0x100 cleared; io = io }

-- 0b00100111, the digits 2 and 7.
abbrev byte27 : Bitset
byte27 = record no_bits { bit0 = true; bit1 = true; bit2 = true; bit5 = true }

abbrev cpu : Intel8080
cpu = record {
  a = byte27;
  b = byte27;
  c = no_bits;
  d = no_bits;
  e = byte27;
  h = no_bits;
  l = byte27;
  pc = 0x100;
  sp = 1;
  status = record initial_status { bit0 = true };
  iff = true;
  opcode = 0;
}

abbrev masked_cpu : Intel8080
masked_cpu = record cpu { iff = false }
