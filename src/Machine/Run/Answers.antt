-- ===== src/Machine/Run/Answers.antt =====
-- What an answer to an interrupt changes besides what is pending: the bus, as `signal` says, and a
-- valid cpu into another.
use mathlib.Core.Bool.{true≢false}
use mach_emu.Base.{
  ℕ, ◌≡◌, ◌<◌, String, List, refl, sym, ap, ◌∙◌, Bool, true, false, not, ◌&&◌, ◌==◌, ltb,
  Bool-cases, Option, none, some, ◌⊎◌, inl, inr, replicate, arith,
}
use mach_emu.Bus.{SystemBus, power_off, send_control}
use mach_emu.Controller.{IsMemory, isr_load, isr_save, isr_quit, no_interrupt}
use mach_emu.Cpu.State.{St}
use mach_emu.Cpu.Snapshot.{Format, same_bytes}
use mach_emu.Cpu.Valid.{IsValid}
use mach_emu.Utils.Libraries.{Coding}
use mach_emu.Machine.Images.{Layout, Document, Failure, check_uuid, load_image}
use mach_emu.Machine.Images.Blocks.{all_fit, image, save_image_fits}
use mach_emu.Machine.Loop.{signal}
use mach_emu.Machine.Handlers.{
  Future, not_valid, deferred, launched, valid, launch, Pending, Session, Answer, is_set, get_load,
  check_load, load_text, try_load, try_save, answer_load, launch_save, read_rom, load_document,
  launch_named, save_collected, save_rom, save_memory, answer_save, wait_load, wait_save,
  answer_quit, answer_none, answer,
}
use mach_emu.Machine.Handlers.Reachable.{answer_quit-valid}
use mach_emu.Machine.Run.Loading.{IsSound, load_machine_state-IsValid}

module _ {W Text : Type 0} (m : Session W Text) (format : Format Text)
    (parse : Text → Option (Document Text)) where
  -- Json from the load callback, if there is any, is refused or has a sound cpu.
  abbrev pub IsSoundText : Option Text → Type 0
  IsSoundText none = Unit
  IsSoundText (some text) =
      (document : Document Text) → parse text ≡ some document → IsSound format document.cpu

  abbrev pub IsSoundSession : Type 0
  IsSoundSession = (w : W) → IsSoundText (get_load m w).0

-- The bus is the one given, and a cpu that was valid still is.
pub record Keeps {W : Type 0} (bus : SystemBus) (s t : St W) : Type 0 where
  pub bus_eq : t.bus ≡ bus
  pub stays_valid : IsValid s.cpu → IsValid t.cpu

then-Keeps : {W : Type 0} {s t u : St W} → Keeps s.bus s t → Keeps t.bus t u → Keeps s.bus s u
then-Keeps h k = record {
  bus_eq = k.bus_eq ∙ h.bus_eq;
  stays_valid = λ valid. k.stays_valid (h.stays_valid valid);
}

world-Keeps : {W : Type 0} (s : St W) (w : W) → Keeps s.bus s (record s { world = w })
world-Keeps s w = record { bus_eq = refl; stays_valid = λ h. h }

module _ {W Text : Type 0} (m : Session W Text) (format : Format Text) ⦃coding : Coding⦄
    (zlib : Bool) (print : Document Text → Text) (parse : Text → Option (Document Text))
    (sound : IsSoundSession m format parse) where
  load_document-Keeps :
      (rom ram : Option Layout) (document : Document Text) (s : St W)
      → IsSound format document.cpu
      → Keeps s.bus s (load_document m format zlib print parse rom ram document s)
  unfolding load_document read_rom
  load_document-Keeps none ram document s good = world-Keeps s s.world
  load_document-Keeps (some rom) none document s good =
      failed (check_uuid format zlib m.uuid document)
    where
      failed : (x : Failure ⊎ List ℕ) → Keeps s.bus s (read_rom m format zlib print parse x rom s)
      failed (inl e) = world-Keeps s s.world
      failed (inr _) = world-Keeps s (load_image m.memory rom s.world).1
  load_document-Keeps (some rom) (some ram) document s good = record {
    bus_eq = refl;
    stays_valid = λ h.
        load_machine_state-IsValid format s.cpu h zlib m.memory rom ram m.uuid document s.world
          good;
  }

  load_text-Keeps :
      (text : Option Text) (s : St W)
      → IsSoundText m format parse text
      → Keeps s.bus s (load_text m format zlib print parse text s)
  unfolding load_text
  load_text-Keeps none s good = record { bus_eq = refl; stays_valid = λ h. h }
  load_text-Keeps (some text) s good = parsed (parse text) refl
    where
      parsed :
          (x : Option (Document Text))
          → parse text ≡ x
          → Keeps s.bus s (load_text m format zlib print parse (some text) s)
      parsed none e = rw (e, load_text) (world-Keeps s s.world)
      parsed (some document) e =
          rw (e, load_text) (load_document-Keeps m.rom m.ram document s (good document e))

  check_load_sound : (f : Future) (w : W) → IsSoundText m format parse (check_load m f w).0
  unfolding check_load
  check_load_sound not_valid w = tt
  check_load_sound deferred w = sound w
  check_load_sound launched w = elim (Bool-cases (m.ready w).0) [
    | inl now ↦ rw now (sound (m.ready w).1)
    | inr later ↦ rw later tt
  ]

  try_load-Keeps :
      (p : Pending Text) (s : St W) → Keeps s.bus s (try_load m format zlib print parse p s).1
  unfolding try_load
  try_load-Keeps p s =
      let r = check_load m p.on_load s.world in
      then-Keeps (world-Keeps s r.2)
        (load_text-Keeps r.0 (record s { world = r.2 }) (check_load_sound p.on_load s.world))

  try_save-Keeps :
      (p : Pending Text) (s : St W) → Keeps s.bus s (try_save m format zlib print parse p s).1
  unfolding try_save
  try_save-Keeps p s = world-Keeps s _

  answer_load-Keeps :
      (p : Pending Text) (s : St W) → Keeps s.bus s (answer_load m format zlib print parse p s).1
  unfolding answer_load
  answer_load-Keeps p s =
      elim (Bool-cases (is_set m.load_callback && not (valid p.on_load) && not (valid p.on_save))) [
        | inr ignored ↦ rw ignored (world-Keeps s s.world)
        | inl free ↦ rw free (try_load-Keeps (record p { on_load = launch m.load_async }) s)
      ]

  wait_load-Keeps :
      (p : Pending Text) (s : St W) → Keeps s.bus s (wait_load m format zlib print parse p s).1
  unfolding wait_load
  wait_load-Keeps p s = elim (Bool-cases (valid p.on_load)) [
    | inr gone ↦ rw gone (world-Keeps s s.world)
    | inl there ↦
        let r = get_load m s.world in
        rw there (
          then-Keeps (world-Keeps s r.1)
            (load_text-Keeps r.0 (record s { world = r.1 }) (sound s.world)))
  ]

  wait_save-Keeps :
      (p : Pending Text) (s : St W) → Keeps s.bus s (wait_save m format zlib print parse p s).1
  unfolding wait_save
  wait_save-Keeps p s = elim (Bool-cases (valid p.on_save)) [
    | inr gone ↦ rw gone (world-Keeps s s.world)
    | inl there ↦ rw there (world-Keeps s _)
  ]

  answer_quit-Keeps :
      (p : Pending Text) (s : St W)
      → Keeps (send_control power_off s.bus) s (answer_quit m format zlib print parse p s).1
  unfolding answer_quit
  answer_quit-Keeps p s =
      let r = wait_load m format zlib print parse p s in
      let both = then-Keeps (wait_load-Keeps p s) (wait_save-Keeps r.0 r.1) in
      record { bus_eq = ap (send_control power_off) both.bus_eq; stays_valid = both.stays_valid }

  answer_none-Keeps :
      (p : Pending Text) (s : St W) → Keeps s.bus s (answer_none m format zlib print parse p s).1
  unfolding answer_none
  answer_none-Keeps p s =
      let r = try_load m format zlib print parse p s in
      then-Keeps (try_load-Keeps p s) (try_save-Keeps r.0 r.1)

  launch_save-Keeps :
      (d : Failure ⊎ Document Text) (p : Pending Text) (s : St W)
      → Keeps s.bus s (launch_save m format zlib print parse d p s).1
  unfolding launch_save
  launch_save-Keeps (inl e) p s = world-Keeps s s.world
  launch_save-Keeps (inr document) p s =
      try_save-Keeps
        (record p { on_save = launch m.save_async; save_state = some (print document) }) s

  launch_named-Keeps :
      (names : Option (String × String)) (rom ram : List ℕ) (p : Pending Text) (s : St W)
      → Keeps s.bus s (launch_named m format zlib print parse names rom ram p s).1
  unfolding launch_named
  launch_named-Keeps none rom ram p s = world-Keeps s s.world
  launch_named-Keeps (some names) rom ram p s = launch_save-Keeps _ p s

  -- The answer ends, and after `ISR::Quit` nothing is pending.
  abbrev pub Answered : ℕ → St W → Answer W Text → Type 0
  Answered isr s x =
      (q : Pending Text) × (t : St W) × (x ≡ some (q, t))
      × Keeps (signal isr s.bus) s t
      × ((isr == isr_quit) ≡ true → (valid q.on_load ≡ false) × (valid q.on_save ≡ false))

  -- A save ends.
  abbrev Saves : St W → Answer W Text → Type 0
  Saves s x = (q : Pending Text) × (t : St W) × (x ≡ some (q, t)) × Keeps s.bus s t

  module _ (lawful : IsMemory m.memory) (spins : ℕ) (enough : 65535 < spins)
      (rom_fits : all_fit m.rom ≡ true) (ram_fits : all_fit m.ram ≡ true) where
    -- The loops that collect the memory end.
    save_rom-Keeps :
        (rom : Option Layout) (p : Pending Text) (s : St W) (ram : List ℕ) (w : W)
        → all_fit rom ≡ true
        → Saves s (save_rom m format zlib print parse spins p s rom (some (ram, w)))
    unfolding save_rom save_collected
    save_rom-Keeps none p s ram w fits = (p, record s { world = w }, refl, world-Keeps s w)
    save_rom-Keeps (some rom) p s ram w fits =
        let (w', e, _) = save_image_fits lawful spins rom w fits enough in
        let s' = record s { world = w' } in
        let r = launch_named m format zlib print parse m.names (image m.memory rom w) ram p s' in
        rw e (
          r.0,
          r.1,
          refl,
          then-Keeps (world-Keeps s w')
              (launch_named-Keeps m.names (image m.memory rom w) ram p s'),
        )

    save_memory-Keeps :
        (ram : Option Layout) (p : Pending Text) (s : St W)
        → all_fit ram ≡ true
        → Saves s (save_memory m format zlib print parse spins p s ram)
    unfolding save_memory
    save_memory-Keeps none p s fits = (p, s, refl, world-Keeps s s.world)
    save_memory-Keeps (some ram) p s fits =
        let (w, e, _) = save_image_fits lawful spins ram s.world fits enough in
        rw e (save_rom-Keeps m.rom p s (image m.memory ram s.world) w rom_fits)

    answer_save-Keeps :
        (p : Pending Text) (s : St W) → Saves s (answer_save m format zlib print parse spins p s)
    unfolding answer_save
    answer_save-Keeps p s =
        elim (Bool-cases
          (is_set m.save_callback && not (valid p.on_save) && not (valid p.on_load))) [
            | inr ignored ↦ rw ignored (p, s, refl, world-Keeps s s.world)
            | inl free ↦ elim (Bool-cases (same_bytes m.uuid (replicate 16 0))) [
              | inl zeros ↦ rw (free, zeros) (p, s, refl, world-Keeps s s.world)
              | inr good ↦ rw (free, good) (save_memory-Keeps m.ram p s ram_fits)
            ]
          ]

    pub answer-Answered :
        (isr : ℕ) (p : Pending Text) (s : St W)
        → Answered isr s (answer m format zlib print parse spins isr p s)
    unfolding answer signal
    answer-Answered isr p s = elim (Bool-cases (ltb isr 8)) [
      | inl vector ↦ rw vector (
        p,
        _,
        refl,
        record { bus_eq = refl; stays_valid = λ h. h },
        λ quit. absurd (true≢false (ground arith)),
      )
      | inr e1 ↦ elim (Bool-cases (isr == isr_quit)) [
        | inl quit ↦
            let not_load : (isr == isr_load) ≡ false = ground arith in
            let not_save : (isr == isr_save) ≡ false = ground arith in
            let r = answer_quit m format zlib print parse p s in
            rw (e1, not_load, not_save, quit)
              (
                r.0,
                r.1,
                refl,
                answer_quit-Keeps p s,
                λ _. answer_quit-valid m format zlib print parse p s,
              )
        | inr e2 ↦ elim (Bool-cases (isr == isr_load)) [
          | inl load ↦
              let r = answer_load m format zlib print parse p s in
              rw (e1, e2, load)
                (r.0, r.1, refl, answer_load-Keeps p s, λ quit. absurd (true≢false (sym quit)))
          | inr e3 ↦ elim (Bool-cases (isr == isr_save)) [
            | inl save ↦
                let (q, t, e, kept) = answer_save-Keeps p s in
                rw (e1, e2, e3, save) (q, t, e, kept, λ quit. absurd (true≢false (sym quit)))
            | inr e4 ↦ elim (Bool-cases (isr == no_interrupt)) [
              | inl quiet ↦
                  let r = answer_none m format zlib print parse p s in
                  rw (e1, e2, e3, e4, quiet)
                    (r.0, r.1, refl, answer_none-Keeps p s, λ quit. absurd (true≢false (sym quit)))
              | inr other ↦
                  rw (e1, e2, e3, e4, other)
                    (p, s, refl, world-Keeps s s.world, λ quit. absurd (true≢false (sym quit)))
            ]
          ]
        ]
      ]
    ]
