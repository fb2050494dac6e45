-- ===== src/Machine/Handlers/Exclusive.antt =====
-- The answers of Machine/Handlers.antt keep a load and a save from being pending together.
use mathlib.Core.Path.{subst}
use mathlib.Core.Option.{some-injective, none-ne-some}
use mach_emu.Base.Results.{if_taken, if_not_taken}
use mach_emu.Base.{
  String, ℕ, ◌≡◌, ap, Bool, false, not, ◌&&◌, Bool-cases, Option, none, some, ◌⊎◌, inl, inr, List,
  replicate, arith,
}
use mach_emu.Cpu.State.{St}
use mach_emu.Cpu.Snapshot.{Format, same_bytes}
use mach_emu.Utils.Libraries.{Coding}
use mach_emu.Machine.Images.{Document, Failure, save_image}
use mach_emu.Machine.Handlers.{
  not_valid, launched, valid, launch, Pending, Session, is_set, try_load, try_save, answer_load,
  launch_save, launch_named, save_collected, save_rom, save_memory, answer_save, Layout,
}
use mach_emu.Machine.Handlers.Exclusion.{
  IsExclusive, check_load_lem, check_save_lem, kept_load, kept_save, without_load, without_save,
  launched_load, launched_save,
}

module _ {W Text : Type 0} (m : Session W Text) (format : Format Text) ⦃coding : Coding⦄
    (zlib : Bool) (print : Document Text → Text) (parse : Text → Option (Document Text)) where
  pub try_load-IsExclusive :
      (p : Pending Text) (s : St W)
      → (p.on_load ≡ launched → IsExclusive m (record p { on_load = launched }))
      → IsExclusive m (record p { on_load = not_valid })
      → IsExclusive m (try_load m format zlib print parse p s).0
  unfolding try_load
  try_load-IsExclusive p s kept gone =
      kept_load m p p.on_load _ (check_load_lem m p.on_load s.world) kept gone

  pub try_save-IsExclusive :
      (p : Pending Text) (s : St W)
      → (p.on_save ≡ launched → IsExclusive m (record p { on_save = launched }))
      → IsExclusive m (record p { on_save = not_valid })
      → IsExclusive m (try_save m format zlib print parse p s).0
  unfolding try_save
  try_save-IsExclusive p s kept gone =
      kept_save m p p.on_save _ (check_save_lem m p.save_state p.on_save s.world) kept gone

  pub answer_load-IsExclusive :
      (p : Pending Text) (s : St W)
      → IsExclusive m p
      → IsExclusive m (answer_load m format zlib print parse p s).0
  unfolding answer_load
  answer_load-IsExclusive p s h =
      elim (Bool-cases (is_set m.load_callback && not (valid p.on_load) && not (valid p.on_save))) [
        | inr ignored ↦ rw ignored h
        | inl free ↦ rw free (
            try_load-IsExclusive (record p { on_load = launch m.load_async }) s
              (launched_load m p (ground arith)) (without_load m p h))
      ]

  save_rom-IsExclusive :
      (fuel : ℕ) (p p' : Pending Text) (s s' : St W) (rom : Option Layout) (r : Option (List ℕ × W))
      → IsExclusive m p
      → valid p.on_load ≡ false
      → save_rom m format zlib print parse fuel p s rom r ≡ some (p', s')
      → IsExclusive m p'
  unfolding save_rom save_collected launch_named launch_save
  save_rom-IsExclusive fuel p p' s s' rom none h gone e = absurd (none-ne-some _ e)
  save_rom-IsExclusive fuel p p' s s' none (some ram) h gone e =
      subst (IsExclusive m) (ap (λ x. x.0) (some-injective _ _ e)) h
  save_rom-IsExclusive fuel p p' s s' (some rom) (some ram) h gone e =
      collected (save_image m.memory fuel rom ram.1) e
    where
      written :
          (d : Failure ⊎ Document Text) (s : St W)
          → IsExclusive m (launch_save m format zlib print parse d p s).0
      written (inl e) s = h
      written (inr d) s =
          try_save-IsExclusive
            (record p { on_save = launch m.save_async; save_state = some (print d) }) s
            (launched_save m p gone) (without_save m p h)

      named :
          (names : Option (String × String)) (bytes : List ℕ) (s : St W)
          → IsExclusive m (launch_named m format zlib print parse names bytes ram.0 p s).0
      named none bytes s = h
      named (some names) bytes s = written _ s

      collected :
          (r : Option (List ℕ × W))
          → save_collected m format zlib print parse p s ram.0 r ≡ some (p', s')
          → IsExclusive m p'
      collected none e = absurd (none-ne-some _ e)
      collected (some r) e =
          subst (IsExclusive m) (ap (λ x. x.0) (some-injective _ _ e))
            (named m.names r.0 (record s { world = r.1 }))

  save_memory-IsExclusive :
      (fuel : ℕ) (p p' : Pending Text) (s s' : St W) (ram : Option Layout)
      → IsExclusive m p
      → valid p.on_load ≡ false
      → save_memory m format zlib print parse fuel p s ram ≡ some (p', s')
      → IsExclusive m p'
  unfolding save_memory
  save_memory-IsExclusive fuel p p' s s' none h gone e =
      subst (IsExclusive m) (ap (λ x. x.0) (some-injective _ _ e)) h
  save_memory-IsExclusive fuel p p' s s' (some ram) h gone e =
      save_rom-IsExclusive fuel p p' s s' m.rom (save_image m.memory fuel ram s.world) h gone e

  pub answer_save-IsExclusive :
      (fuel : ℕ) (p p' : Pending Text) (s s' : St W)
      → IsExclusive m p
      → answer_save m format zlib print parse fuel p s ≡ some (p', s')
      → IsExclusive m p'
  unfolding answer_save
  answer_save-IsExclusive fuel p p' s s' h e =
      elim (Bool-cases (is_set m.save_callback && not (valid p.on_save) && not (valid p.on_load))) [
        | inr ignored ↦
            subst (IsExclusive m)
              (ap (λ x. x.0) (some-injective _ _ (if_not_taken _ _ _ _ ignored e))) h
        | inl free ↦
            let e1 = if_taken _ _ _ _ free e in
            elim (Bool-cases (same_bytes m.uuid (replicate 16 0))) [
              | inl zeros ↦
                  subst (IsExclusive m)
                    (ap (λ x. x.0) (some-injective _ _ (if_taken _ _ _ _ zeros e1))) h
              | inr good ↦
                  save_memory-IsExclusive fuel p p' s s' m.ram h (ground arith)
                    (if_not_taken _ _ _ _ good e1)
            ]
      ]
