-- ===== src/Cpu/Protocol.antt =====
-- What the cpu relies on when it calls `process_` (Cpu/source/8080.cpp, `ReadFromAddress` and
-- `WriteToAddress`): a request on an otherwise idle bus is served at once. The machine's
-- `ProcessControllers` meets this contract.
use mach_emu.Base.{ℕ, ◌<◌, ◌≡◌, true, ◌==◌, if◌then◌else◌, u8}
use mach_emu.Bits.{no_bits}
use mach_emu.Bus.{SystemBus, Signal, memory_read, memory_write, io_read, io_write, set_lane, idle}
use mach_emu.Cpu.State.{Intel8080, Process, read_from_address, write_to_address, ready}

-- The bus with one lane raised.
abbrev pub request : Signal → ℕ → ℕ → SystemBus
unfolding set_lane
request s a v = record { address_bus = a; data_bus = v; control_bus = set_lane s true no_bits }

-- The bus after a read: nothing is left but the byte.
abbrev pub answer : ℕ → SystemBus
answer v = record idle { data_bus = v }

-- `peek w a` is the byte at `a`; `loaded a w` is what reading it leaves of the memory, which holds
-- the same bytes.
pub record Devices (W : Type 0) ⦃p : Process W⦄ : Type 0 where
  pub peek : W → ℕ → ℕ
  pub loaded : ℕ → W → W
  pub store : ℕ → ℕ → W → W
  pub input : W → ℕ → ℕ
  pub received : ℕ → W → W
  pub output : ℕ → ℕ → W → W
  pub run-memory_read :
      (a : ℕ) (w : W) → p.run (request memory_read a 0) w ≡ (answer (peek w a), loaded a w)
  pub run-memory_write :
      (a v : ℕ) (w : W) → p.run (request memory_write a v) w ≡ (idle, store a v w)
  pub run-io_read :
      (a : ℕ) (w : W) → p.run (request io_read a 0) w ≡ (answer (input w a), received a w)
  pub run-io_write : (a v : ℕ) (w : W) → p.run (request io_write a v) w ≡ (idle, output a v w)
  pub peek-lt : (w : W) (a : ℕ) → peek w a < 256
  pub peek-loaded : (a b : ℕ) (w : W) → peek (loaded a w) b ≡ peek w b
  pub peek-store : (a v b : ℕ) (w : W) → peek (store a v w) b ≡ (if a == b then u8 v else peek w b)

module _ {W : Type 0} ⦃p : Process W⦄ ⦃dev : Devices W⦄ where
  pub read_memory :
      (a : ℕ) (cpu : Intel8080) (w : W)
      → read_from_address memory_read a (ready cpu w)
        ≡ (tt, record { cpu = cpu; bus = answer (dev.peek w a); world = dev.loaded a w })
  unfolding read_from_address
  read_memory a cpu w = rw (dev.run-memory_read a w)

  pub write_memory :
      (a v : ℕ) (cpu : Intel8080) (w : W)
      → write_to_address memory_write a v (ready cpu w) ≡ (tt, ready cpu (dev.store a v w))
  unfolding write_to_address
  write_memory a v cpu w = rw (dev.run-memory_write a v w)

  pub read_port :
      (a : ℕ) (cpu : Intel8080) (w : W)
      → read_from_address io_read a (ready cpu w)
        ≡ (tt, record { cpu = cpu; bus = answer (dev.input w a); world = dev.received a w })
  unfolding read_from_address
  read_port a cpu w = rw (dev.run-io_read a w)

  pub write_port :
      (a v : ℕ) (cpu : Intel8080) (w : W)
      → write_to_address io_write a v (ready cpu w) ≡ (tt, ready cpu (dev.output a v w))
  unfolding write_to_address
  write_port a v cpu w = rw (dev.run-io_write a v w)

pub ruleset bus_laws = (read_memory, write_memory, read_port, write_port)
