-- ===== src/Machine/Handlers/Exclusion.antt =====
-- No load and save are in flight together.
use mathlib.Core.Path.{subst⁻¹}
use mathlib.Core.Bool.{true≢false}
use mach_emu.Base.{
  ◌≡◌, refl, sym, ap, Bool, true, false, not, ◌&&◌, Bool-cases, Option, none, ◌⊎◌, inl, inr,
}
use mach_emu.Machine.Handlers.{
  Future, not_valid, deferred, launched, valid, launch, Pending, Session, check_load, check_save,
}

abbrev exclusive : Future → Future → Bool
exclusive not_valid not_valid = true
exclusive launched not_valid = true
exclusive not_valid launched = true
exclusive _ _ = false

-- Only a future in another thread is left pending, and never one of each kind.
abbrev pub IsExclusive : {W Text : Type 0} → Session W Text → Pending Text → Type 0
IsExclusive m p =
    (exclusive p.on_load p.on_save ≡ true)
    × ((valid p.on_load && not m.load_async) ≡ false)
    × ((valid p.on_save && not m.save_async) ≡ false)

abbrev pub nothing_pending : {Text : Type 0} → Pending Text
nothing_pending = record { on_load = not_valid; on_save = not_valid; save_state = none }

-- After `checkHandler` a future is not valid, unless it is in another thread.
abbrev Checked : Future → Future → Type 0
Checked before after = (after ≡ not_valid) ⊎ ((before ≡ launched) × (after ≡ launched))

pub check_load_lem :
    {W Text : Type 0} (m : Session W Text) (f : Future) (w : W) → Checked f (check_load m f w).1
unfolding check_load
check_load_lem m not_valid w = inl refl
check_load_lem m deferred w = inl refl
check_load_lem m launched w = elim (Bool-cases (m.ready w).0) [
  | inl now ↦ rw now (inl refl)
  | inr later ↦ rw later (inr (refl, refl))
]

pub check_save_lem :
    {W Text : Type 0} (m : Session W Text) (text : Option Text) (f : Future) (w : W)
    → Checked f (check_save m text f w).0
unfolding check_save
check_save_lem m text not_valid w = inl refl
check_save_lem m text deferred w = inl refl
check_save_lem m text launched w = elim (Bool-cases (m.ready w).0) [
  | inl now ↦ rw now (inl refl)
  | inr later ↦ rw later (inr (refl, refl))
]

module _ {W Text : Type 0} (m : Session W Text) where
  -- A future that has been checked stays exclusive: of a load beside a save, and of a save.
  pub kept_load :
      (p : Pending Text) (f after : Future)
      → Checked f after
      → (f ≡ launched → IsExclusive m (record p { on_load = launched }))
      → IsExclusive m (record p { on_load = not_valid })
      → IsExclusive m (record p { on_load = after })
  kept_load p f after (inl e) kept gone =
      subst⁻¹ (λ x. IsExclusive m (record p { on_load = x })) e gone
  kept_load p f after (inr (e, e')) kept gone =
      subst⁻¹ (λ x. IsExclusive m (record p { on_load = x })) e' (kept e)

  pub kept_save :
      (p : Pending Text) (f after : Future)
      → Checked f after
      → (f ≡ launched → IsExclusive m (record p { on_save = launched }))
      → IsExclusive m (record p { on_save = not_valid })
      → IsExclusive m (record p { on_save = after })
  kept_save p f after (inl e) kept gone =
      subst⁻¹ (λ x. IsExclusive m (record p { on_save = x })) e gone
  kept_save p f after (inr (e, e')) kept gone =
      subst⁻¹ (λ x. IsExclusive m (record p { on_save = x })) e' (kept e)

  pub without_load :
      (p : Pending Text) → IsExclusive m p → IsExclusive m (record p { on_load = not_valid })
  without_load p h = alone p.on_load p.on_save h.0 h.2
    where
      alone :
          (f g : Future)
          → exclusive f g ≡ true
          → (valid g && not m.save_async) ≡ false
          → (exclusive not_valid g ≡ true)
            × (false ≡ false)
            × ((valid g && not m.save_async) ≡ false)
      alone f not_valid e h = (refl, refl, h)
      alone f launched e h = (refl, refl, h)
      alone not_valid deferred e h = absurd (true≢false (sym e))
      alone deferred deferred e h = absurd (true≢false (sym e))
      alone launched deferred e h = absurd (true≢false (sym e))

  pub without_save :
      (p : Pending Text) → IsExclusive m p → IsExclusive m (record p { on_save = not_valid })
  without_save p h = alone p.on_load p.on_save h.0 h.1
    where
      alone :
          (f g : Future)
          → exclusive f g ≡ true
          → (valid f && not m.load_async) ≡ false
          → (exclusive f not_valid ≡ true)
            × ((valid f && not m.load_async) ≡ false)
            × (false ≡ false)
      alone not_valid g e h = (refl, h, refl)
      alone launched g e h = (refl, h, refl)
      alone deferred not_valid e h = absurd (true≢false (sym e))
      alone deferred deferred e h = absurd (true≢false (sym e))
      alone deferred launched e h = absurd (true≢false (sym e))

not_valid_lem : (f : Future) → valid f ≡ false → f ≡ not_valid
not_valid_lem not_valid e = refl
not_valid_lem deferred e = absurd (true≢false e)
not_valid_lem launched e = absurd (true≢false e)

launch_lem : (async : Bool) → launch async ≡ launched → async ≡ true
launch_lem true e = refl
launch_lem false e = absurd (true≢false (ap is_launched (sym e)))
  where
    is_launched : Future → Bool
    is_launched launched = true
    is_launched _ = false

module _ {W Text : Type 0} (m : Session W Text) where
  pub idle-IsExclusive :
      (p : Pending Text) → valid p.on_load ≡ false → valid p.on_save ≡ false → IsExclusive m p
  idle-IsExclusive p h h' =
      rw (not_valid_lem p.on_load h, not_valid_lem p.on_save h') (refl, refl, refl)

  pub launched_load :
      (p : Pending Text)
      → valid p.on_save ≡ false
      → launch m.load_async ≡ launched
      → IsExclusive m (record p { on_load = launched })
  launched_load p gone e =
      rw (not_valid_lem p.on_save gone, launch_lem m.load_async e) (refl, refl, refl)

  pub launched_save :
      (p : Pending Text)
      → valid p.on_load ≡ false
      → launch m.save_async ≡ launched
      → IsExclusive m (record p { on_save = launched })
  launched_save p gone e =
      rw (not_valid_lem p.on_load gone, launch_lem m.save_async e) (refl, refl, refl)
