-- ===== src/TestControllers/Io.antt =====
-- `BaseIoController` and `TestIoController` (Tests/TestControllers/source).
use mach_emu.Base.{
  ℕ, ◌+◌, ◌-◌, ◌%◌, ◌^◌, ◌<◌, ◌≡◌, Bool, false, ◌||◌, ◌==◌, ltb, if◌then◌else◌, arith,
}
use mach_emu.Controller.{isr_save, isr_load, isr_quit, no_interrupt}

-- The protected and private fields of the base class, then those of `TestIoController`. The times
-- and the cycle count are 64-bit words; a `SaveStateOn` of -1 is 2 ^ 64 - 1.
pub record BaseIo : Type 0 where
  pub power_off : Bool
  pub save : Bool
  pub load : Bool
  pub save_cycle_count : ℕ

pub record TestIo : Type 0 where
  pub base : BaseIo
  pub last_time : ℕ
  pub device_data : ℕ

unfoldable pub base_write : ℕ → BaseIo → BaseIo
base_write port io = record io {
  power_off = port == 0xff;
  save = port == 0xfe;
  load = port == 0xfd;
}

unfoldable pub base_service : ℕ → BaseIo → ℕ × BaseIo
base_service cycles io =
    if io.power_off
    then (isr_quit, record io { power_off = false })
    else if io.save || io.save_cycle_count == cycles
    then (isr_save, record io { save = false })
    else if io.load
    then (isr_load, record io { load = false })
    else (no_interrupt, io)

unfoldable pub test_read : ℕ → TestIo → ℕ × TestIo
test_read port io = if port == 0 then (io.device_data, io) else (0, io)

unfoldable pub test_write : ℕ → ℕ → TestIo → TestIo
unfolding base_write
test_write port v io =
    if port == 0
    then record io { device_data = v }
    else record io { base = base_write port io.base }

-- `currTime - lastTime_`, of two `uint64_t`.
unfoldable pub elapsed : ℕ → ℕ → ℕ
elapsed now last = (now + (2 ^ 64 - last)) % 2 ^ 64

-- The part after the base class found nothing: `t >= 0` is a test of an unsigned number.
unfoldable pub every_second : ℕ → TestIo → ℕ × TestIo
unfolding elapsed
every_second now io =
    if ltb 1000000000 (elapsed now io.last_time)
    then (1, record io { last_time = now })
    else (no_interrupt, io)

unfoldable pub test_service : ℕ → ℕ → TestIo → ℕ × TestIo
unfolding base_service every_second
test_service now cycles io =
    let r = base_service cycles io.base in
    if r.0 == no_interrupt
    then every_second now (record io { base = r.1 })
    else (r.0, record io { base = r.1 })

-- The controller with no request of the program pending.
abbrev pub quiet : TestIo → TestIo
quiet io = record io { base = record (io.base) { power_off = false; save = false; load = false } }

-- With no request of the program pending, at a cycle at which the base controller issues no
-- ISR::Save of its own (SaveStateOn), and for times below 2 ^ 63 nanoseconds, TestIoController
-- issues ISR::One exactly when more than a second has passed since the last one; if the clock has
-- been set back, it issues one at once too, and takes the new time as that of the last interrupt.
pub test_service_lem :
    (now cycles : ℕ) (io : TestIo)
    → now < 2 ^ 63
    → io.last_time < 2 ^ 63
    → base_service cycles io.base ≡ (no_interrupt, io.base)
    → test_service now cycles io ≡ (
        if ltb now io.last_time || ltb (io.last_time + 1000000000) now
        then (1, record io { last_time = now })
        else (no_interrupt, io))
unfolding test_service every_second elapsed
test_service_lem now cycles io h k quiet = rw quiet (ground arith)

-- A write to a port other than 0 is a request that the next ServiceInterrupts returns and forgets,
-- unless that call is at the cycle set with SaveStateOn: to quit, save or load, by the port; a
-- write to any other port cancels what was asked for before.
pub test_service-test_write :
    (port v now cycles : ℕ) (io : TestIo)
    → (port == 0) ≡ false
    → (io.base.save_cycle_count == cycles) ≡ false
    → (test_service now cycles (test_write port v io) ≡ (
        if port == 0xff
        then (isr_quit, quiet io)
        else if port == 0xfe
        then (isr_save, quiet io)
        else if port == 0xfd
        then (isr_load, quiet io)
        else every_second now (quiet io)))
unfolding test_service test_write base_service base_write
test_service-test_write port v now cycles io h k = rw (h, k) (ground arith)
