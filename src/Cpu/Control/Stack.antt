-- ===== src/Cpu/Control/Stack.antt =====
-- The stack: PUSH and POP, CALL and RET, XTHL. Addresses wrap at 65536.
use mach_emu.Base.{ℕ, ◌+◌, ◌<◌, ◌≡◌, ◌≢◌, ap, ap₂, ◌∙◌, u16, arith}
use mach_emu.Bits.{Bitset, of_ulong}
use mach_emu.Bits.Laws.{of_ulong-to_ulong, to_ulong-lt}
use mach_emu.Cpu.State.{Intel8080, Reg, deref, assign_reg, value, Process, ready, receive}
use mach_emu.Cpu.Control.{push, pop}
use mach_emu.Cpu.Protocol.{Devices, read_memory, write_memory}
use mach_emu.Cpu.Logic.Rotates.{twice_on}
use mach_emu.Cpu.Transfer.Pairs.{Pair, bc, de, hl}

-- The two addresses that a push from `sp` writes.
abbrev pub high_slot : ℕ → ℕ
high_slot sp = u16 (sp + 0xffff)

abbrev pub low_slot : ℕ → ℕ
low_slot sp = u16 (high_slot sp + 0xffff)

-- The registers after a POP of two bytes.
abbrev pub popped : Reg → Reg → Bitset → Bitset → Intel8080 → Intel8080
popped hi low x y cpu =
    let c = assign_reg hi x (assign_reg low y cpu) in
    record c { sp = u16 (u16 (cpu.sp + 1) + 1); pc = u16 (cpu.pc + 1) }

deref-moved : (r : Reg) (cpu : Intel8080) (sp : ℕ) → deref r (record cpu { sp = sp }) ≡ deref r cpu
deref-moved r cpu sp = ground arith

pub slots_undo : (sp : ℕ) → sp < 65536 → u16 (u16 (low_slot sp + 1) + 1) ≡ sp
slots_undo sp h = omega arith

-- A POP from where a PUSH has left the stack pointer.
restored :
    {hi low : Reg}
    → Pair hi low
    → (x y : Bitset) (cpu : Intel8080) → cpu.sp < 65536
    → popped hi low x y (record cpu { sp = low_slot cpu.sp; pc = u16 (cpu.pc + 1) })
      ≡ twice_on (assign_reg hi x (assign_reg low y cpu))
restored bc x y cpu h =
    λ i. record (twice_on (record cpu { b = x; c = y })) { sp = slots_undo cpu.sp h i }
restored de x y cpu h =
    λ i. record (twice_on (record cpu { d = x; e = y })) { sp = slots_undo cpu.sp h i }
restored hl x y cpu h =
    λ i. record (twice_on (record cpu { h = x; l = y })) { sp = slots_undo cpu.sp h i }

module _ {W : Type 0} ⦃p : Process W⦄ ⦃dev : Devices W⦄ where
  -- Two bytes stored on the stack, the high one first.
  abbrev pub stacked : ℕ → ℕ → ℕ → W → W
  stacked sp hi low w = dev.store (low_slot sp) low (dev.store (high_slot sp) hi w)

  pub peek_low :
      (sp hi low : ℕ) (w : W) → low < 256 → dev.peek (stacked sp hi low w) (low_slot sp) ≡ low
  peek_low sp hi low w fits =
      ground (arith, dev.peek-store (low_slot sp) low (low_slot sp) (dev.store (high_slot sp) hi w))

  pub peek_high :
      (sp hi low : ℕ) (w : W)
      → hi < 256
      → dev.peek (stacked sp hi low w) (u16 (low_slot sp + 1)) ≡ hi
  peek_high sp hi low w fits =
      dev.peek-store _ _ _ _
      ∙ ground (arith, dev.peek-store (high_slot sp) hi (u16 (low_slot sp + 1)) w)

  pub push_lem :
      (hi low : Reg) (cpu : Intel8080) (w : W)
      → push hi low (ready cpu w) ≡ (
        11,
        ready
            (record cpu { sp = low_slot cpu.sp; pc = u16 (cpu.pc + 1) })
            (stacked cpu.sp
              (value (deref hi (record cpu { sp = high_slot cpu.sp })))
              (value (deref low (record cpu { sp = low_slot cpu.sp })))
              w),
      )
  unfolding push
  push_lem hi low cpu w = rw (write_memory, write_memory)

  -- Only the two slots are written.
  pub peek_other :
      (sp hi low a : ℕ) (w : W)
      → a ≢ high_slot sp
      → a ≢ low_slot sp
      → dev.peek (stacked sp hi low w) a ≡ dev.peek w a
  peek_other sp hi low a w h k = ground (
    arith,
    dev.peek-store (low_slot sp) low a (dev.store (high_slot sp) hi w),
    dev.peek-store (high_slot sp) hi a w,
  )

  pub pop_lem :
      {hi low : Reg}
      → Pair hi low
      → (cpu : Intel8080) (w : W)
      → pop hi low (ready cpu w) ≡ (
        10,
        ready
            (popped hi low
              (of_ulong (dev.peek (dev.loaded cpu.sp w) (u16 (cpu.sp + 1))))
              (of_ulong (dev.peek w cpu.sp))
              cpu)
            (dev.loaded (u16 (cpu.sp + 1)) (dev.loaded cpu.sp w)),
      )
  unfolding pop receive
  pop_lem bc cpu w = rw (read_memory, read_memory)
  pop_lem de cpu w = rw (read_memory, read_memory)
  pop_lem hl cpu w = rw (read_memory, read_memory)

  -- What a POP reads back is what the PUSH stored: the bytes of registers.
  pub reread_low :
      (r : Reg) (cpu : Intel8080) (hi sp : ℕ) (w : W)
      → of_ulong (
          dev.peek
            (stacked cpu.sp hi (value (deref r (record cpu { sp = sp }))) w)
            (low_slot cpu.sp))
        ≡ deref r cpu
  reread_low r cpu hi sp w =
      ap of_ulong (peek_low cpu.sp hi _ w (to_ulong-lt _))
      ∙ of_ulong-to_ulong _
      ∙ deref-moved r cpu sp

  pub reread_high :
      (r : Reg) (cpu : Intel8080) (low sp : ℕ) (w : W)
      → of_ulong (
          dev.peek
            (dev.loaded
              (low_slot cpu.sp)
              (stacked cpu.sp (value (deref r (record cpu { sp = sp }))) low w))
            (u16 (low_slot cpu.sp + 1)))
        ≡ deref r cpu
  reread_high r cpu low sp w =
      ap of_ulong (dev.peek-loaded _ _ _ ∙ peek_high cpu.sp _ low w (to_ulong-lt _))
      ∙ of_ulong-to_ulong _
      ∙ deref-moved r cpu sp

  -- PUSH of any two registers and then POP into a pair moves the two there and restores the stack
  -- pointer; no other register but the program counter changes, and of memory only the two bytes
  -- below the stack pointer, wrapping at 65536, may have.
  pub pop-push :
      (hi low : Reg) {hi' low' : Reg}
      → Pair hi' low'
      → (cpu : Intel8080) (w : W) → cpu.sp < 65536
      → let s = (pop hi' low' (push hi low (ready cpu w)).1).1 in
        (s.cpu ≡ twice_on (assign_reg hi' (deref hi cpu) (assign_reg low' (deref low cpu) cpu)))
        × ((a : ℕ) → a ≢ high_slot cpu.sp → a ≢ low_slot cpu.sp → dev.peek s.world a ≡ dev.peek w a)
  pop-push hi low {hi'} {low'} d cpu w h =
      rw (push_lem hi low cpu w, pop_lem d _ _)
        (
          ap₂
                (λ x y.
                  popped hi' low' x y (record cpu { sp = low_slot cpu.sp; pc = u16 (cpu.pc + 1) }))
                (reread_high hi cpu _ _ w) (reread_low low cpu _ _ w)
              ∙ restored d (deref hi cpu) (deref low cpu) cpu h,
          λ a n m. dev.peek-loaded _ _ _ ∙ dev.peek-loaded _ _ _ ∙ peek_other cpu.sp _ _ a w n m,
        )
