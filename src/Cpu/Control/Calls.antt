-- ===== src/Cpu/Control/Calls.antt =====
-- CALL and RET, PUSH PSW and POP PSW.
use mach_emu.Base.{
  ℕ, ◌+◌, ◌/◌, ◌%◌, ◌<◌, ◌≡◌, refl, ap₂, ◌∙◌, Bool, true, false, if◌then◌else◌, Bool-cases, inl,
  inr, u16, arith,
}
use mach_emu.Bits.{Bitset, of_ulong, odd, and_bits, or_bits}
use mach_emu.Bits.Laws.{to_ulong-of_ulong}
use mach_emu.Cpu.State.{Intel8080, reg_a, reg_status, uint16, Process, ready, receive}
use mach_emu.Cpu.Logic.Rotates.{twice_on}
use mach_emu.Cpu.Decode.{Test, always, Call}
use mach_emu.Cpu.Execute.{exec, holds}
use mach_emu.Cpu.Control.{push, pop_psw, call_on_flag, ret_on_flag}
use mach_emu.Cpu.Control.Stack.{
  low_slot, stacked, popped, push_lem, reread_low, reread_high, peek_low, peek_high, slots_undo,
}
use mach_emu.Cpu.Protocol.{Devices, read_memory, write_memory}
use mach_emu.Cpu.Valid.{IsValid}

-- `(status_ & Register(0xD7)) | Register(0x02)`.
abbrev masked : Bitset → Bitset
masked r = or_bits (and_bits r (of_ulong 0xd7)) (of_ulong 0x02)

masked_of_IsValid : (cpu : Intel8080) → IsValid cpu → masked cpu.status ≡ cpu.status
unfolding and_bits or_bits of_ulong odd
masked_of_IsValid cpu h = ground arith

-- The 16-bit number whose bytes stand in memory.
pub uint16-bytes : (n : ℕ) → n < 65536 → uint16 (of_ulong (n / 256)) (of_ulong (n % 256)) ≡ n
unfolding uint16
uint16-bytes n h = omega (arith, to_ulong-of_ulong)

-- The program counter after a three-byte instruction.
abbrev pub after_operand : ℕ → ℕ
after_operand pc = u16 (u16 (u16 (pc + 1) + 1) + 1)

module _ {W : Type 0} ⦃p : Process W⦄ ⦃dev : Devices W⦄ where
  pub pop_psw_lem :
      (cpu : Intel8080) (w : W)
      → let x = of_ulong (dev.peek (dev.loaded cpu.sp w) (u16 (cpu.sp + 1))) in
        let y = of_ulong (dev.peek w cpu.sp) in
        (pop_psw (ready cpu w)).1.cpu ≡ popped reg_a reg_status x (masked y) cpu
  unfolding pop_psw receive
  pop_psw_lem cpu w = rw (read_memory, read_memory)

  -- PUSH PSW and then POP PSW restore the accumulator, all the flags and the stack pointer: of a
  -- valid cpu nothing but the program counter is changed.
  pub pop_psw-push :
      (cpu : Intel8080) (w : W)
      → IsValid cpu
      → (pop_psw (push reg_a reg_status (ready cpu w)).1).1.cpu ≡ twice_on cpu
  pop_psw-push cpu w h =
      rw (push_lem reg_a reg_status cpu w, pop_psw_lem)
        (ap₂
            (λ x y.
              popped reg_a reg_status x (masked y)
                (record cpu { sp = low_slot cpu.sp; pc = u16 (cpu.pc + 1) }))
            (reread_high reg_a cpu _ 0 w) (reread_low reg_status cpu _ 0 w)
          ∙ λ i. record (twice_on cpu) {
            status = masked_of_IsValid cpu h i;
            sp = slots_undo cpu.sp h.sp_fits i;
          })

  -- The two bytes after the opcode.
  abbrev pub target : Intel8080 → W → ℕ
  target cpu w =
      uint16 (of_ulong (dev.peek (dev.loaded (u16 (cpu.pc + 1)) w) (u16 (u16 (cpu.pc + 1) + 1))))
        (of_ulong (dev.peek w (u16 (cpu.pc + 1))))

  abbrev pub operand_read : Intel8080 → W → W
  operand_read cpu w = dev.loaded (u16 (u16 (cpu.pc + 1) + 1)) (dev.loaded (u16 (cpu.pc + 1)) w)

  call_lem :
      (cpu : Intel8080) (w : W)
      → call_on_flag true (ready cpu w) ≡ (
        17,
        ready
            (record cpu { sp = low_slot cpu.sp; pc = target cpu w })
            (stacked cpu.sp
              (after_operand cpu.pc / 256)
              (after_operand cpu.pc % 256)
              (operand_read cpu w)),
      )
  unfolding call_on_flag receive
  call_lem cpu w = rw (read_memory, read_memory, write_memory, write_memory)

  skip_lem :
      (cpu : Intel8080) (w : W)
      → call_on_flag false (ready cpu w)
        ≡ (11, ready (record cpu { pc = after_operand cpu.pc }) (operand_read cpu w))
  unfolding call_on_flag receive
  skip_lem cpu w = rw (read_memory, read_memory)

  pub ret_lem :
      (is_ret : Bool) (cpu : Intel8080) (w : W)
      → ret_on_flag true is_ret (ready cpu w) ≡ (
        if is_ret then 10 else 11,
        ready
            (record cpu {
              sp = u16 (u16 (cpu.sp + 1) + 1);
              pc =
                  uint16
                    (of_ulong (dev.peek (dev.loaded cpu.sp w) (u16 (cpu.sp + 1))))
                    (of_ulong (dev.peek w cpu.sp));
            })
            (dev.loaded (u16 (cpu.sp + 1)) (dev.loaded cpu.sp w)),
      )
  unfolding ret_on_flag receive
  ret_lem is_ret cpu w = rw (read_memory, read_memory)

  -- A return to an address that stands on the stack.
  pub ret-stacked :
      (is_ret : Bool) (cpu : Intel8080) (sp address : ℕ) (w : W)
      → sp < 65536
      → address < 65536
      → (ret_on_flag true is_ret (
          ready
            (record cpu { sp = low_slot sp })
            (stacked sp (address / 256) (address % 256) w))).1.cpu
        ≡ record cpu { sp = sp; pc = address }
  ret-stacked is_ret cpu sp address w hs ha =
      let m = stacked sp (address / 256) (address % 256) w in
      rw ret_lem (λ i. record cpu {
        sp = slots_undo sp hs i;
        pc =
            (ap₂ (λ x y. uint16 (of_ulong x) (of_ulong y))
                  (dev.peek-loaded (low_slot sp) (u16 (low_slot sp + 1)) m
                    ∙ peek_high sp (address / 256) (address % 256) w (omega arith))
                  (peek_low sp (address / 256) (address % 256) w (omega arith))
                ∙ uint16-bytes address ha)
              i;
      })

  -- CALL and its conditional forms, of a valid cpu. Taken, it takes 17 ticks and jumps to the
  -- address in its operand, and RET then comes back to the instruction after the call with the
  -- stack pointer and all registers as they were. Not taken, it takes 11 ticks and only moves the
  -- program counter on. Reads may change the memory's state, but not its bytes.
  pub ret-call :
      (t : Test) (is_ret : Bool) (cpu : Intel8080) (w : W)
      → IsValid cpu
      → let called = exec (Call.call t) (ready cpu w) in
        if holds t cpu
        then ((called.0 ≡ 17)
            × (called.1.cpu.pc ≡ target cpu w)
            × ((exec (Call.ret always is_ret) called.1).1.cpu
                ≡ record cpu { pc = after_operand cpu.pc }))
        else (called ≡ (11, ready (record cpu { pc = after_operand cpu.pc }) (operand_read cpu w)))
  unfolding exec
  ret-call t is_ret cpu w h = elim (Bool-cases (holds t cpu)) [
    | inl taken ↦
        rw (taken, call_lem cpu w)
          (
            refl,
            refl,
            ret-stacked is_ret (record cpu { pc = target cpu w }) cpu.sp (after_operand cpu.pc)
                (operand_read cpu w) h.sp_fits (omega arith),
          )
    | inr not_taken ↦ rw (not_taken, skip_lem cpu w) refl
  ]
