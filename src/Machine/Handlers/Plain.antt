-- ===== src/Machine/Handlers/Plain.antt =====
-- A machine without callbacks answers as the loop of Machine/Loop.antt does.
use mach_emu.Base.{
  ℕ, ◌≡◌, refl, Bool, true, false, ◌==◌, ltb, if◌then◌else◌, Bool-cases, Option, none, some, inl,
  inr, arith,
}
use mach_emu.Controller.{isr_load, isr_save, isr_quit, no_interrupt}
use mach_emu.Cpu.State.{St}
use mach_emu.Cpu.Snapshot.{Format}
use mach_emu.Utils.Libraries.{Coding}
use mach_emu.Machine.Images.{Document}
use mach_emu.Machine.Loop.{signal}
use mach_emu.Machine.Handlers.{
  Session, try_load, try_save, load_text, check_load, check_save, answer_load, answer_save,
  wait_load, wait_save, answer_quit, answer_none, answer,
}
use mach_emu.Machine.Handlers.Exclusion.{nothing_pending}

same_branches : {A : Type 0} {x y z : A} (c : Bool) → x ≡ z → y ≡ z → (if c then x else y) ≡ z
same_branches true e e' = e
same_branches false e e' = e'

module _ {W Text : Type 0} (m : Session W Text) (format : Format Text) ⦃coding : Coding⦄
    (zlib : Bool) (print : Document Text → Text) (parse : Text → Option (Document Text)) where
  -- Without callbacks, each interrupt changes only the bus, as `signal` does.
  pub answer-signal :
      (fuel isr : ℕ) (s : St W)
      → m.load_callback ≡ none
      → m.save_callback ≡ none
      → answer m format zlib print parse fuel isr nothing_pending s
        ≡ some (nothing_pending, record s { bus = signal isr s.bus })
  unfolding answer answer_load answer_save answer_quit answer_none wait_load wait_save try_load
      try_save load_text check_load check_save signal
  answer-signal fuel isr s no_load no_save = elim (Bool-cases (ltb isr 8)) [
    | inl vector ↦ rw vector refl
    | inr e1 ↦ elim (Bool-cases (isr == isr_quit)) [
      | inl quit ↦
          let not_load : (isr == isr_load) ≡ false = ground arith in
          let not_save : (isr == isr_save) ≡ false = ground arith in
          rw (e1, not_load, not_save, quit) refl
      | inr e2 ↦
          rw (e1, e2, no_load, no_save)
            (same_branches (isr == isr_load) refl (
              same_branches (isr == isr_save) refl (same_branches (isr == no_interrupt) refl refl)))
    ]
  ]
