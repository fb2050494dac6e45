-- ===== src/Machine/Images/Loads.antt =====
-- When `loadMachineState` loads, and what it leaves as it is.
use mathlib.Core.Option.{none-ne-some}
use mach_emu.Base.{
  ℕ, ◌≡◌, refl, sym, ap, ◌∙◌, Bool, true, false, ==_refl, Bool-cases, Option, none, some, ◌⊎◌, inl,
  inr, List, all, replicate,
}
use mach_emu.Base.Results.{and_then}
use mach_emu.Controller.{Controller, IsMemory}
use mach_emu.Cpu.State.{Intel8080}
use mach_emu.Cpu.Snapshot.{Format, same_bytes}
use mach_emu.Utils.Libraries.{Coding}
use mach_emu.Machine.Images.{
  Layout, Document, Failure, from_coding, from_cpu, restore_image, load_image, ram_size, check_uuid,
  accept_state, finish_load, load_checked, load_machine_state,
}
use mach_emu.Machine.Images.Blocks.{peek, Same, image, ends_below}
use mach_emu.Machine.Images.Restore.{covers, load_image_lem}
use mach_emu.Machine.Images.Compatible.{
  same_bytes_refl, same_bytes-≡, restore_image-outside, IsCompatible, check_uuid-inr,
  accept_state-inr,
}

module _ {Text W : Type 0} (format : Format Text) ⦃coding : Coding⦄ (zlib : Bool)
    (memory : Controller W) where
  -- How a load ends: it is refused, the document is not compatible, and the cpu and every byte of
  -- the memory are as they were; or the document is compatible, the cpu is the one in it, and every
  -- byte outside the ram is as it was.
  pub data Loads (rom_layout ram_layout : Layout) (uuid : List ℕ) (d : Document Text)
      (cpu : Intel8080) (w : W) : Option Failure × Intel8080 × W → Type 0 where
    refused :
        (e : Failure) (w' : W)
        → ((cpu' : Intel8080) (ram : List ℕ)
            → ¬ IsCompatible format zlib memory rom_layout ram_layout uuid d cpu w cpu' ram)
        → Same memory w' w
        → Loads rom_layout ram_layout uuid d cpu w (some e, cpu, w')
    loaded :
        (cpu' : Intel8080) (ram : List ℕ) (w' : W)
        → IsCompatible format zlib memory rom_layout ram_layout uuid d cpu w cpu' ram
        → ((a : ℕ) → covers ram_layout a ≡ false → peek memory a w' ≡ peek memory a w)
        → Loads rom_layout ram_layout uuid d cpu w (none, cpu', w')

module _ {Text W : Type 0} (format : Format Text) ⦃coding : Coding⦄ (zlib : Bool)
    {memory : Controller W} (lawful : IsMemory memory) where
  -- A compatible document is loaded.
  load_compatible :
      (rom ram_layout : Layout) (uuid : List ℕ) (d : Document Text) (cpu : Intel8080) (w : W)
      (cpu' : Intel8080) (ram : List ℕ)
      → all ends_below rom ≡ true
      → IsCompatible format zlib memory rom ram_layout uuid d cpu w cpu' ram
      → load_machine_state format zlib memory rom ram_layout uuid d cpu w
        ≡ (none, cpu', restore_image memory ram_layout ram (load_image memory rom w).1)
  unfolding load_machine_state load_checked check_uuid accept_state finish_load from_coding from_cpu
      and_then
  load_compatible rom ram_layout uuid d cpu w cpu' ram fits c =
      let given : same_bytes uuid (replicate 16 0) ≡ false =
        elim (Bool-cases (same_bytes uuid (replicate 16 0))) [
          | inl empty ↦ absurd (c.some_uuid (same_bytes-≡ uuid (replicate 16 0) empty))
          | inr good ↦ good
        ] in
      let (bytes, _) = load_image_lem lawful rom w fits in
      let r = (load_image memory rom w).1 in
      rw
        (
          given,
          c.same_uuid,
          same_bytes_refl uuid,
          bytes,
          c.same_rom,
          same_bytes_refl (coding.md5 (image memory rom w)),
          c.decoded,
          c.same_size,
          ==_refl (ram_size ram_layout),
          c.same_cpu,
        )
        refl

  refused-Loads :
      (rom ram_layout : Layout) (uuid : List ℕ) (d : Document Text) (cpu : Intel8080) (w w' : W)
      (e : Failure)
      → all ends_below rom ≡ true
      → Same memory w' w
      → load_machine_state format zlib memory rom ram_layout uuid d cpu w ≡ (some e, cpu, w')
      → Loads format zlib memory rom ram_layout uuid d cpu w (some e, cpu, w')
  refused-Loads rom ram_layout uuid d cpu w w' e fits same failed =
      refused e w'
        (λ cpu' ram c. absurd (
          none-ne-some e (
            ap (λ r. r.0)
              (sym (load_compatible rom ram_layout uuid d cpu w cpu' ram fits c) ∙ failed))))
        same

  finish_load-Loads :
      (rom ram_layout : Layout) (uuid : List ℕ) (d : Document Text) (cpu : Intel8080) (w : W)
      (u : List ℕ) (x : Failure ⊎ (Intel8080 × List ℕ))
      → all ends_below rom ≡ true
      → all ends_below ram_layout ≡ true
      → check_uuid format zlib uuid d ≡ inr u
      → accept_state format zlib ram_layout d (load_image memory rom w).0 cpu ≡ x
      → Loads format zlib memory rom ram_layout uuid d cpu w
          (finish_load format zlib memory ram_layout cpu (load_image memory rom w).1 x)
  unfolding load_machine_state load_checked finish_load
  finish_load-Loads rom ram_layout uuid d cpu w u (inl e) rom_fits ram_fits eu ea =
      refused-Loads rom ram_layout uuid d cpu w (load_image memory rom w).1 e rom_fits
        (load_image_lem lawful rom w rom_fits).1
        (ap (load_checked format zlib memory rom ram_layout d cpu w) eu
          ∙ ap (finish_load format zlib memory ram_layout cpu (load_image memory rom w).1) ea)
  finish_load-Loads rom ram_layout uuid d cpu w u (inr x) rom_fits ram_fits eu ea =
      let (bytes, same) = load_image_lem lawful rom w rom_fits in
      let (given, same_uuid) = check_uuid-inr format zlib uuid d u eu in
      let (same_rom, decoded, size, same_cpu) =
        accept_state-inr format zlib ram_layout d (load_image memory rom w).0 cpu x ea in
      loaded x.0 x.1 _
        (record {
          some_uuid = given;
          same_uuid = same_uuid;
          same_rom = same_rom ∙ ap (λ y. inr (coding.md5 y)) bytes;
          decoded = decoded;
          same_size = size;
          same_cpu = same_cpu;
        })
        (λ a out. restore_image-outside lawful ram_layout x.1 _ a ram_fits out ∙ same a)

  load_checked-Loads :
      (rom ram_layout : Layout) (uuid : List ℕ) (d : Document Text) (cpu : Intel8080) (w : W)
      (x : Failure ⊎ List ℕ)
      → all ends_below rom ≡ true
      → all ends_below ram_layout ≡ true
      → check_uuid format zlib uuid d ≡ x
      → Loads format zlib memory rom ram_layout uuid d cpu w
          (load_checked format zlib memory rom ram_layout d cpu w x)
  unfolding load_machine_state load_checked
  load_checked-Loads rom ram_layout uuid d cpu w (inl e) rom_fits ram_fits eu =
      refused-Loads rom ram_layout uuid d cpu w w e rom_fits (λ a. refl)
        (ap (load_checked format zlib memory rom ram_layout d cpu w) eu)
  load_checked-Loads rom ram_layout uuid d cpu w (inr u) rom_fits ram_fits eu =
      finish_load-Loads rom ram_layout uuid d cpu w u _ rom_fits ram_fits eu refl

  -- For blocks of rom and ram that end below 65536, loadMachineState loads a document exactly when it
  -- is compatible: when the memory's uuid is not all zeros and is that in the document, the digest
  -- of the rom's bytes is that in the document, the ram in it can be decoded to as many bytes as the
  -- ram's blocks have, and the cpu's Load accepts the cpu in it. Then the cpu is what Load makes of
  -- it, and no byte of the memory outside the ram's blocks changes. Else it fails, and the cpu and
  -- every byte of the memory are as before.
  pub load_machine_state-Loads :
      (rom ram_layout : Layout) (uuid : List ℕ) (d : Document Text) (cpu : Intel8080) (w : W)
      → all ends_below rom ≡ true
      → all ends_below ram_layout ≡ true
      → Loads format zlib memory rom ram_layout uuid d cpu w
          (load_machine_state format zlib memory rom ram_layout uuid d cpu w)
  unfolding load_machine_state
  load_machine_state-Loads rom ram_layout uuid d cpu w rom_fits ram_fits =
      load_checked-Loads rom ram_layout uuid d cpu w _ rom_fits ram_fits refl
