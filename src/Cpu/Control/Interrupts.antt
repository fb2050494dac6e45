-- ===== src/Cpu/Control/Interrupts.antt =====
-- Interrupts: what `Execute` does with the one on the data bus.
use Prim.Native.Nat.{bit_and}
use mach_emu.Base.{
  ℕ, ◌+◌, ◌*◌, ◌/◌, ◌%◌, ◌<◌, ◌≡◌, refl, sym, ap, ap₂, ◌∙◌, Bool, true, false, some, ◌==◌, ==_iff,
  u16, arith,
}
use mach_emu.Base.Table.{table, row}
use mach_emu.Bits.{of_ulong}
use mach_emu.Cpu.State.{Intel8080, uint16, Process, St, ready}
use mach_emu.Cpu.Decode.Switch.{decode}
use mach_emu.Cpu.Control.{rst_interrupt}
use mach_emu.Cpu.Control.Stack.{low_slot, stacked, peek_low, peek_high, slots_undo}
use mach_emu.Cpu.Control.Calls.{ret_lem, uint16-bytes}
use mach_emu.Cpu.Execute.{exec, exec_instruction, run_opcode, dispatch, execute}
use mach_emu.Cpu.Protocol.{Devices, write_memory}
use mach_emu.Cpu.Valid.{IsValid}
use mach_emu.Cpu.Valid.Step.{
  pending, restart_code, acknowledge-idle, acknowledge-masked, acknowledge-enabled,
  dispatch-interrupt, dispatch-no_interrupt,
}

unfoldable is_vector : ℕ → Bool
is_vector isr = bit_and (restart_code isr) 0x38 == 8 * isr

vectors : table is_vector 8 ≡ true
unfolding table is_vector
vectors = refl

vector : (isr : ℕ) → isr < 8 → bit_and (restart_code isr) 0x38 ≡ 8 * isr
unfolding is_vector
vector isr h = (==_iff _ _).0 (row is_vector 8 isr h vectors)

module _ {W : Type 0} ⦃p : Process W⦄ ⦃dev : Devices W⦄ (cpu : Intel8080) (w : W) where
  -- `Execute` is called with an interrupt on the bus.
  abbrev pub interrupted : ℕ → St W
  interrupted isr = record { cpu = cpu; bus = pending isr; world = w }

  -- The state in which the handler's first instruction runs.
  abbrev pub handling : ℕ → St W
  handling isr =
      ready
        (record cpu { pc = 8 * isr; sp = low_slot cpu.sp; iff = false; opcode = restart_code isr })
        (stacked cpu.sp (cpu.pc / 256) (cpu.pc % 256) w)

  execute-handling :
      (asserts : Bool) (isr : ℕ)
      → isr < 8
      → cpu.iff ≡ true
      → execute asserts (interrupted isr) ≡ some (11, handling isr)
  unfolding execute rst_interrupt
  execute-handling asserts isr small enabled =
      rw
        (
          acknowledge-enabled cpu w isr enabled,
          dispatch-interrupt (record cpu { iff = false }) w asserts isr (omega arith),
          write_memory,
          write_memory,
          vector isr small,
        )
        refl

  -- The opcode of RET, executed where the stack pointer is `low_slot sp` and the two bytes there are
  -- those of `address`.
  execute-ret :
      (asserts : Bool) (sp address : ℕ)
      → sp < 65536
      → address < 65536
      → cpu.sp ≡ low_slot sp
      → dev.peek w cpu.pc ≡ 0xc9
      → dev.peek w (low_slot sp) ≡ address % 256
      → dev.peek w (u16 (low_slot sp + 1)) ≡ address / 256
      → execute asserts (ready cpu w)
        ≡ some (
          10,
          ready
              (record cpu { sp = sp; pc = address; opcode = 0xc9 })
              (dev.loaded (u16 (low_slot sp + 1)) (dev.loaded (low_slot sp) (dev.loaded cpu.pc w))),
        )
  unfolding execute run_opcode exec_instruction decode exec
  execute-ret asserts sp address hs ha e opcode low high =
      rw (acknowledge-idle cpu w, dispatch-no_interrupt cpu w asserts, opcode)
        (ap some (
          ret_lem true (record cpu { opcode = 0xc9 }) (dev.loaded cpu.pc w)
          ∙ rw e (
              ap₂
                (λ s a. (
                  10,
                  ready (record cpu { sp = s; pc = a; opcode = 0xc9 })
                      (dev.loaded (u16 (low_slot sp + 1))
                        (dev.loaded (low_slot sp) (dev.loaded cpu.pc w))),
                ))
                (slots_undo sp hs)
                (ap₂ (λ x y. uint16 (of_ulong x) (of_ulong y))
                    (dev.peek-loaded _ _ _ ∙ dev.peek-loaded _ _ _ ∙ high)
                    (dev.peek-loaded _ _ _ ∙ low)
                  ∙ uint16-bytes address ha))))

module _ {W : Type 0} ⦃p : Process W⦄ ⦃dev : Devices W⦄ (cpu : Intel8080) (w : W) where
  -- On a valid cpu with interrupts enabled, an interrupt with a vector below 8 is taken in 11
  -- ticks: the handler at eight times the vector starts with interrupts disabled. In any later state
  -- on an idle bus in which the stack pointer and the two bytes at it are as they were when the
  -- handler started, and the byte at the program counter is the opcode of RET, Execute returns in 10
  -- ticks to the very instruction that had been interrupted, with the stack pointer that there was,
  -- and changes no other register but the opcode last fetched, and no byte of memory.
  pub ret-execute :
      (asserts : Bool) (isr : ℕ)
      → IsValid cpu
      → isr < 8
      → cpu.iff ≡ true
      → (cpu' : Intel8080) (w' : W)
      → let entry = handling cpu w isr in
        cpu'.sp ≡ entry.cpu.sp
        → dev.peek w' entry.cpu.sp ≡ dev.peek entry.world entry.cpu.sp
        → dev.peek w' (u16 (entry.cpu.sp + 1)) ≡ dev.peek entry.world (u16 (entry.cpu.sp + 1))
        → dev.peek w' cpu'.pc ≡ 0xc9
        → (execute asserts (interrupted cpu w isr) ≡ some (11, entry))
          × (w2 : W) × (execute asserts (ready cpu' w')
              ≡ some (10, ready (record cpu' { sp = cpu.sp; pc = cpu.pc; opcode = 0xc9 }) w2))
          × ((a : ℕ) → dev.peek w2 a ≡ dev.peek w' a)
  ret-execute asserts isr h small enabled cpu' w' e low high opcode = (
    execute-handling cpu w asserts isr small enabled,
    _,
    execute-ret cpu' w' asserts cpu.sp cpu.pc h.sp_fits h.pc_fits e opcode
        (low ∙ peek_low cpu.sp (cpu.pc / 256) (cpu.pc % 256) w (omega arith))
        (high ∙ peek_high cpu.sp (cpu.pc / 256) (cpu.pc % 256) w (omega (arith, h.pc_fits))),
    λ a. dev.peek-loaded _ _ _ ∙ dev.peek-loaded _ _ _ ∙ dev.peek-loaded _ _ _,
  )

  -- With interrupts disabled, a pending one is dropped: `Execute` does what it does on an idle
  -- bus.
  pub execute-masked :
      (asserts : Bool) (isr : ℕ)
      → cpu.iff ≡ false
      → execute asserts (interrupted cpu w isr) ≡ execute asserts (ready cpu w)
  unfolding execute
  execute-masked asserts isr off =
      ap (λ r. dispatch asserts r.0 r.1)
        (acknowledge-masked cpu w isr off ∙ sym (acknowledge-idle cpu w))
