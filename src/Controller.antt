-- ===== src/Controller.antt =====
-- Controller/include/Controller/IController.h: the interface through which the machine reaches a
-- device. Both of a machine's controllers work on one world `W`, since they may be, or share, the
-- same object.
use mach_emu.Base.{ℕ, ◌<◌, ◌≡◌, ◌==◌, if◌then◌else◌, u8}

-- Base/include/Base/Base.h: the values of `ISR` that are no restart vectors.
abbrev pub isr_save : ℕ
isr_save = 0xffcf

abbrev pub isr_load : ℕ
isr_load = 0xffd0

abbrev pub isr_quit : ℕ
isr_quit = 0xffd1

abbrev pub no_interrupt : ℕ
no_interrupt = 0xffd2

-- `Read`, `Write` and `ServiceInterrupts`. The last returns the value of an `ISR`, and is given
-- the time in nanoseconds and the cycles so far.
pub record Controller (W : Type 0) : Type 0 where
  pub read : ℕ → W → ℕ × W
  pub write : ℕ → ℕ → W → W
  pub service_interrupts : ℕ → ℕ → W → ℕ × W

-- A memory: it keeps the bytes written to it, and reading one leaves all of them as they are.
pub record IsMemory {W : Type 0} (m : Controller W) : Type 0 where
  pub read-lt : (a : ℕ) (w : W) → (m.read a w).0 < 256
  pub read-read : (a b : ℕ) (w : W) → (m.read b (m.read a w).1).0 ≡ (m.read b w).0
  pub read-write :
      (a v b : ℕ) (w : W) → (m.read b (m.write a v w)).0 ≡ (if a == b then u8 v else (m.read b w).0)
