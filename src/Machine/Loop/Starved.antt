-- ===== src/Machine/Loop/Starved.antt =====
-- Instructions without ticks keep the io controller from being asked.
use mach_emu.Base.{
  ℕ, zero, suc, ◌+◌, ◌-◌, ◌<◌, ◌≡◌, refl, ap, ◌∙◌, Bool, true, false, not, ◌||◌, ◌==◌, leb,
  if◌then◌else◌, Option, none, some, u16, arith,
}
use mach_emu.Base.Table.{table, row}
use mach_emu.Base.Results.{if_taken_eq, if_not_taken_eq}
use mach_emu.Bus.{idle, power_off, receive_control}
use mach_emu.Cpu.State.{Intel8080, Process, St, ready, inc_pc, ◌>>◌, pure}
use mach_emu.Cpu.Decode.{Instruction, not_implemented}
use mach_emu.Cpu.Decode.Switch.{decode}
use mach_emu.Cpu.Control
use mach_emu.Cpu.Execute.{exec_instruction, run_opcode, execute}
use mach_emu.Cpu.Protocol.{Devices}
use mach_emu.Cpu.Valid.Step.{fetched, dispatch-no_interrupt, acknowledge-idle}
use mach_emu.Controller.{Controller}
use mach_emu.Machine.Loop.{
  LoopSt, finished, still_running, continue_loop, after_execute, iterate, machine_loop,
}

-- The opcodes that are skipped with the byte after them.
abbrev pub is_skipped : ℕ → Bool
is_skipped opcode = opcode == 0xed || opcode == 0xfd || opcode == 0xdd

abbrev is_not_implemented : Option Instruction → Bool
is_not_implemented (some not_implemented) = true
is_not_implemented _ = false

skipped_table :
    table (λ opcode. not (is_skipped opcode) || is_not_implemented (decode opcode)) 256 ≡ true
unfolding table decode
skipped_table = refl

skipped-decode :
    (opcode : ℕ) → opcode < 256 → is_skipped opcode ≡ true → decode opcode ≡ some not_implemented
skipped-decode opcode small skipped =
    named (decode opcode) (let e = row _ 256 opcode small skipped_table in ground (arith, e))
  where
    named : (i : Option Instruction) → is_not_implemented i ≡ true → i ≡ some not_implemented
    named (some not_implemented) e = refl
    named none e = cc
    named (some Instruction.hlt) e = cc
    named (some (Instruction.total i)) e = cc

-- The cpu after it.
abbrev skip : ℕ → Intel8080 → Intel8080
skip opcode cpu = record cpu { opcode = opcode; pc = u16 (u16 (cpu.pc + 1) + 1) }

skips :
    {W : Type 0} (cpu : Intel8080) (w : W)
    → is_skipped cpu.opcode ≡ true
    → Control.not_implemented false (ready cpu w)
      ≡ some (0, ready (record cpu { pc = u16 (u16 (cpu.pc + 1) + 1) }) w)
unfolding Control.not_implemented
skips {W} cpu w skipped =
    ap (λ (r : Option (St W)). elim r [ none ↦ none | some s ↦ some ((inc_pc >> pure 0) s) ])
      (if_taken_eq _ _ _ skipped)

module _ {W : Type 0} ⦃p : Process W⦄ ⦃dev : Devices W⦄ (cpu : Intel8080) (w : W) where
  skipped-execute :
      is_skipped (dev.peek w cpu.pc) ≡ true
      → execute false (ready cpu w)
        ≡ some (0, ready (skip (dev.peek w cpu.pc) cpu) (dev.loaded cpu.pc w))
  unfolding execute run_opcode exec_instruction
  skipped-execute skipped =
      rw
        (
          acknowledge-idle cpu w,
          dispatch-no_interrupt cpu w false,
          skipped-decode (dev.peek w cpu.pc) (dev.peek-lt w cpu.pc) skipped,
        )
        (skips (fetched cpu w) (dev.loaded cpu.pc w) skipped)

module _ {W : Type 0} ⦃p : Process W⦄ ⦃dev : Devices W⦄ where
  -- Every byte of the memory is such an opcode.
  abbrev pub IsFilled : W → Type 0
  IsFilled w = (a : ℕ) → is_skipped (dev.peek w a) ≡ true

  -- What an iteration makes of the state.
  abbrev skipped_state : (ℕ → W → ℕ × W) → LoopSt W → LoopSt W
  skipped_state tick s =
      let w = s.state.world in
      let pc = s.state.cpu.pc in
      let r = tick 0 (dev.loaded pc w) in
      record s {
        state = ready (skip (dev.peek w pc) s.state.cpu) r.1;
        curr_time = r.0;
        total_ticks = s.total_ticks + 0;
      }

  iterate_skipped :
      (ticks_per_isr : ℕ) (tick : ℕ → W → ℕ × W) (io : Controller W) (s : LoopSt W)
      → s.total_ticks - s.last_ticks < ticks_per_isr
      → is_skipped (dev.peek s.state.world s.state.cpu.pc) ≡ true
      → iterate false ticks_per_isr tick io (record s { state = ready s.state.cpu s.state.world })
        ≡ some (skipped_state tick s)
  unfolding iterate after_execute
  iterate_skipped ticks_per_isr tick io s early skipped =
      ap
        (λ (r : Option (ℕ × St W)). elim r [
          | none ↦ none
          | some x ↦ some (
              after_execute false ticks_per_isr tick io x.0 x.1
                (record s { state = ready s.state.cpu s.state.world }))
        ])
        (skipped-execute s.state.cpu s.state.world skipped)
      ∙ ap some (
          if_not_taken_eq (leb ticks_per_isr (s.total_ticks + 0 - s.last_ticks)) _ _
            (ground (arith, early)))

  one_more :
      (ticks_per_isr : ℕ) (tick : ℕ → W → ℕ × W) (io : Controller W) (fuel : ℕ) (s : LoopSt W)
      → s.state.bus ≡ idle
      → s.total_ticks - s.last_ticks < ticks_per_isr
      → is_skipped (dev.peek s.state.world s.state.cpu.pc) ≡ true
      → machine_loop false ticks_per_isr tick io (suc fuel) s
        ≡ machine_loop false ticks_per_isr tick io fuel (skipped_state tick s)
  unfolding machine_loop continue_loop receive_control
  one_more ticks_per_isr tick io fuel s empty early skipped =
      ap
        (λ bus.
          let r = receive_control power_off bus in
          let s' = record s { state = record (s.state) { bus = r.1 } } in
          if r.0
          then finished s'
          else continue_loop (machine_loop false ticks_per_isr tick io fuel)
              (iterate false ticks_per_isr tick io s'))
        empty
      ∙ ap (continue_loop (machine_loop false ticks_per_isr tick io fuel))
          (iterate_skipped ticks_per_isr tick io s early skipped)

  -- In a build without assertions, where each byte of the memory is one of the opcodes 0xED, 0xFD and
  -- 0xDD, and Tick leaves it so: from an idle bus and with ticks_per_isr positive and not yet
  -- reached, after any number of instructions the loop still runs, in the same state whatever the io
  -- controller would answer, with no ticks counted and interrupts not serviced since.
  pub machine_loop-IsFilled :
      (ticks_per_isr : ℕ) (tick : ℕ → W → ℕ × W) (fuel : ℕ) (s : LoopSt W)
      → s.state.bus ≡ idle
      → s.total_ticks - s.last_ticks < ticks_per_isr
      → IsFilled s.state.world
      → ((w : W) → IsFilled w → IsFilled (tick 0 w).1)
      → (t : LoopSt W) × ((io : Controller W)
          → machine_loop false ticks_per_isr tick io fuel s ≡ still_running t)
        × (t.total_ticks ≡ s.total_ticks)
        × (t.last_ticks ≡ s.last_ticks)
        × IsFilled t.state.world
  unfolding machine_loop
  machine_loop-IsFilled ticks_per_isr tick zero s empty early filled kept =
      (s, λ io. refl, refl, refl, filled)
  machine_loop-IsFilled ticks_per_isr tick (suc fuel) s empty early filled kept =
      let w = s.state.world in
      let pc = s.state.cpu.pc in
      let (t, loops, same, same', filled') =
        machine_loop-IsFilled ticks_per_isr tick fuel (skipped_state tick s) refl
          (omega (arith, early))
          (kept (dev.loaded pc w) (λ a. ap is_skipped (dev.peek-loaded pc a w) ∙ filled a)) kept in
      (
        t,
        λ io. one_more ticks_per_isr tick io fuel s empty early (filled pc) ∙ loops io,
        omega (arith, same),
        same',
        filled',
      )
