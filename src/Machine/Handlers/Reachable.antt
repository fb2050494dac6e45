-- ===== src/Machine/Handlers/Reachable.antt =====
-- What is pending while the machine runs.
use mathlib.Core.Path.{subst}
use mathlib.Core.Option.{some-injective}
use mach_emu.Base.Results.{if_taken, if_not_taken, if_not_taken_eq}
use mach_emu.Base.{
  ℕ, ◌≡◌, refl, ap, ◌∙◌, Bool, true, false, not, ◌&&◌, ◌||◌, ◌==◌, ltb, if◌then◌else◌, Bool-cases,
  Option, some, inl, inr, arith,
}
use mach_emu.Controller.{isr_load, isr_save, isr_quit, no_interrupt}
use mach_emu.Cpu.State.{St}
use mach_emu.Cpu.Snapshot.{Format}
use mach_emu.Utils.Libraries.{Coding}
use mach_emu.Machine.Images.{Document}
use mach_emu.Machine.Handlers.{
  valid, Pending, Session, is_set, try_load, answer_load, answer_save, wait_load, wait_save,
  answer_quit, answer_none, answer,
}
use mach_emu.Machine.Handlers.Exclusion.{
  IsExclusive, nothing_pending, idle-IsExclusive, without_load, without_save,
}
use mach_emu.Machine.Handlers.Exclusive.{
  try_load-IsExclusive, try_save-IsExclusive, answer_load-IsExclusive, answer_save-IsExclusive,
}

module _ {W Text : Type 0} (m : Session W Text) (format : Format Text) ⦃coding : Coding⦄
    (zlib : Bool) (print : Document Text → Text) (parse : Text → Option (Document Text)) where
  answer_none-IsExclusive :
      (p : Pending Text) (s : St W)
      → IsExclusive m p
      → IsExclusive m (answer_none m format zlib print parse p s).0
  unfolding answer_none
  answer_none-IsExclusive p s h =
      let r = try_load m format zlib print parse p s in
      let h1 =
        try_load-IsExclusive m format zlib print parse p s
          (λ e. subst (λ x. IsExclusive m (record p { on_load = x })) e h) (without_load m p h) in
      try_save-IsExclusive m format zlib print parse r.0 r.1
        (λ e. subst (λ x. IsExclusive m (record (r.0) { on_save = x })) e h1)
        (without_save m r.0 h1)

  wait_load-valid :
      (p : Pending Text) (s : St W)
      → let q = (wait_load m format zlib print parse p s).0 in
        (valid q.on_load ≡ false) × (q.on_save ≡ p.on_save)
  unfolding wait_load
  wait_load-valid p s = elim (Bool-cases (valid p.on_load)) [
    | inl h ↦ rw h (refl, refl)
    | inr h ↦ rw h (h, refl)
  ]

  wait_save-valid :
      (p : Pending Text) (s : St W)
      → let q = (wait_save m format zlib print parse p s).0 in
        (valid q.on_save ≡ false) × (q.on_load ≡ p.on_load)
  unfolding wait_save
  wait_save-valid p s = elim (Bool-cases (valid p.on_save)) [
    | inl h ↦ rw h (refl, refl)
    | inr h ↦ rw h (h, refl)
  ]

  -- After `ISR::Quit` no future is valid.
  pub answer_quit-valid :
      (p : Pending Text) (s : St W)
      → let q = (answer_quit m format zlib print parse p s).0 in
        (valid q.on_load ≡ false) × (valid q.on_save ≡ false)
  unfolding answer_quit
  answer_quit-valid p s =
      let r = wait_load m format zlib print parse p s in
      let (loaded, same) = wait_load-valid p s in
      let (saved, same') = wait_save-valid r.0 r.1 in (ap valid same' ∙ loaded, saved)

  pub answer-IsExclusive :
      (fuel isr : ℕ) (p p' : Pending Text) (s s' : St W)
      → IsExclusive m p
      → answer m format zlib print parse fuel isr p s ≡ some (p', s')
      → IsExclusive m p'
  unfolding answer
  answer-IsExclusive fuel isr p p' s s' h e = elim (Bool-cases (ltb isr 8)) [
    | inl vector ↦ result (p, _) h (if_taken _ _ _ _ vector e)
    | inr e0 ↦
        let e1 = if_not_taken _ _ _ _ e0 e in
        elim (Bool-cases (isr == isr_load)) [
          | inl load ↦
              result (answer_load m format zlib print parse p s)
                (answer_load-IsExclusive m format zlib print parse p s h) (if_taken _ _ _ _ load e1)
          | inr e2 ↦
              let e3 = if_not_taken _ _ _ _ e2 e1 in
              elim (Bool-cases (isr == isr_save)) [
                | inl save ↦
                    answer_save-IsExclusive m format zlib print parse fuel p p' s s' h
                      (if_taken _ _ _ _ save e3)
                | inr e4 ↦ last (if_not_taken _ _ _ _ e4 e3)
              ]
        ]
  ]
    where
      result :
          (r : Pending Text × St W)
          → IsExclusive m r.0
          → Path (Option (Pending Text × St W)) (some r) (some (p', s'))
          → IsExclusive m p'
      result r good e = subst (IsExclusive m) (ap (λ x. x.0) (some-injective _ _ e)) good

      last :
          Path
            (Option (Pending Text × St W))
            (if isr == isr_quit
              then some (answer_quit m format zlib print parse p s)
              else if isr == no_interrupt
              then some (answer_none m format zlib print parse p s)
              else some (p, s))
            (some (p', s'))
          → IsExclusive m p'
      last e = elim (Bool-cases (isr == isr_quit)) [
        | inl quit ↦
            let (l, r) = answer_quit-valid p s in
            result (answer_quit m format zlib print parse p s)
              (idle-IsExclusive m (answer_quit m format zlib print parse p s).0 l r)
              (if_taken _ _ _ _ quit e)
        | inr e1 ↦
            let e2 = if_not_taken _ _ _ _ e1 e in
            elim (Bool-cases (isr == no_interrupt)) [
              | inl quiet ↦
                  result (answer_none m format zlib print parse p s) (answer_none-IsExclusive p s h)
                    (if_taken _ _ _ _ quiet e2)
              | inr other ↦ result (p, s) h (if_not_taken _ _ _ _ other e2)
            ]
      ]

  -- What is pending after any interrupts that were answered, from the start of `Run` on; whatever
  -- happens between them.
  pub data Reaches : Pending Text → Type 0 where
    at_start : Reaches nothing_pending
    answered :
        (fuel isr : ℕ) (p p' : Pending Text) (s s' : St W)
        → Reaches p
        → answer m format zlib print parse fuel isr p s ≡ some (p', s')
        → Reaches p'

  Reaches-IsExclusive : (p : Pending Text) → Reaches p → IsExclusive m p
  Reaches-IsExclusive p at_start = (refl, refl, refl)
  Reaches-IsExclusive p (answered fuel isr q p' s s' before e) =
      answer-IsExclusive fuel isr q p' s s' (Reaches-IsExclusive q before) e

  -- Between the answers to interrupts, whatever happens there: a load and a save are never pending
  -- together; what is pending runs in another thread, as the option for it says; while either is
  -- pending, a request to load or to save changes nothing; and `ISR::Quit` is always answered,
  -- after which nothing is pending.
  pub Reaches_lem :
      (fuel : ℕ) (p : Pending Text) (s : St W)
      → Reaches p
      → IsExclusive m p
        × ((valid p.on_load || valid p.on_save) ≡ true
            → (answer m format zlib print parse fuel isr_load p s ≡ some (p, s))
              × (answer m format zlib print parse fuel isr_save p s ≡ some (p, s)))
        × ((q : Pending Text) × (t : St W) × (answer m format zlib print parse fuel isr_quit p s
              ≡ some (q, t))
            × ((valid q.on_load || valid q.on_save) ≡ false))
  unfolding answer answer_load answer_save
  Reaches_lem fuel p s reached =
      let (loaded, saved) = answer_quit-valid p s in
      let r = answer_quit m format zlib print parse p s in
      (
        Reaches-IsExclusive p reached,
        λ busy. (
          ap some (
              if_not_taken_eq
                (is_set m.load_callback && not (valid p.on_load) && not (valid p.on_save)) _ _
                (ground arith)),
          if_not_taken_eq (is_set m.save_callback && not (valid p.on_save) && not (valid p.on_load))
              _ _ (ground arith),
        ),
        (r.0, r.1, refl, rw (loaded, saved) refl),
      )
