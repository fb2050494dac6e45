-- ===== src/Machine/Images/Compatible.antt =====
-- What `loadMachineState` asks of a document, and what it writes.
use mathlib.Core.Bool.{true≢false}
use mathlib.Core.Sum.{inr-injective, inl-ne-inr}
use mach_emu.Base.{
  ℕ, zero, suc, ◌+◌, ◌<◌, ◌≡◌, ◌≢◌, refl, sym, ap, ap₂, ◌∙◌, Bool, true, false, ◌==◌, ==_refl, ◌⊎◌,
  inl, inr, List, [], ◌∷◌, all, length, replicate, u16, arith,
}
use mach_emu.Base.Results.{and_then-inr, not_refused, admitted}
use mach_emu.Controller.{Controller, IsMemory}
use mach_emu.Cpu.State.{Intel8080}
use mach_emu.Cpu.Snapshot
use mach_emu.Cpu.Snapshot.{Format, same_bytes}
use mach_emu.Utils
use mach_emu.Utils.{txt_to_bin}
use mach_emu.Utils.Libraries.{Coding}
use mach_emu.Machine.Images.{
  Layout, Document, invalid_uuid, incompatible_memory, incompatible_rom, incompatible_ram,
  from_coding, from_cpu, write_bytes, restore_image, ram_size, check_uuid, accept_state,
}
use mach_emu.Machine.Images.Blocks.{peek, image, ends_below}
use mach_emu.Machine.Images.Restore.{in_block, covers}

pub same_bytes_refl : (xs : List ℕ) → same_bytes xs xs ≡ true
unfolding same_bytes
same_bytes_refl [] = refl
same_bytes_refl (x ∷ xs) = rw (==_refl x) (same_bytes_refl xs)

pub same_bytes-≡ : (xs ys : List ℕ) → same_bytes xs ys ≡ true → xs ≡ ys
unfolding same_bytes
same_bytes-≡ [] [] h = refl
same_bytes-≡ [] (y ∷ ys) h = cc
same_bytes-≡ (x ∷ xs) [] h = cc
same_bytes-≡ (x ∷ xs) (y ∷ ys) h =
    let e : x ≡ y = ground arith in
    let rest : same_bytes xs ys ≡ true = ground arith in
    ap₂ (λ b bs. b ∷ bs) e (same_bytes-≡ xs ys rest)

pub from_coding-inr :
    {A : Type 0} (x : Utils.Failure ⊎ A) (a : A) → from_coding x ≡ inr a → x ≡ inr a
unfolding from_coding
from_coding-inr (inl e) a h = absurd (inl-ne-inr h)
from_coding-inr (inr b) a h = ap inr (inr-injective _ _ h)

from_cpu-inr : {A : Type 0} (x : Snapshot.LoadFailure ⊎ A) (a : A) → from_cpu x ≡ inr a → x ≡ inr a
unfolding from_cpu
from_cpu-inr (inl e) a h = absurd (inl-ne-inr h)
from_cpu-inr (inr b) a h = ap inr (inr-injective _ _ h)

module _ {W : Type 0} {memory : Controller W} (lawful : IsMemory memory) where
  -- Writing a block changes no address outside it, whatever the bytes.
  write_bytes-outside :
      (n addr : ℕ) (ram : List ℕ) (w : W) (a : ℕ)
      → addr + n < 65536
      → in_block (addr, n) a ≡ false
      → peek memory a (write_bytes memory n addr ram w).1 ≡ peek memory a w
  unfolding write_bytes
  write_bytes-outside zero addr ram w a fits out = refl
  write_bytes-outside (suc n) addr [] w a fits out = refl
  write_bytes-outside (suc n) addr (v ∷ ram) w a fits out =
      write_bytes-outside n (addr + 1) ram (memory.write (u16 addr) v w) a (omega arith)
        (ground arith)
      ∙ ground (arith, lawful.read-write (u16 addr) v a w)

  pub restore_image-outside :
      (layout : Layout) (ram : List ℕ) (w : W) (a : ℕ)
      → all ends_below layout ≡ true
      → covers layout a ≡ false
      → peek memory a (restore_image memory layout ram w) ≡ peek memory a w
  unfolding all restore_image
  restore_image-outside [] ram w a fits out = refl
  restore_image-outside (m ∷ more) ram w a fits out =
      let r = write_bytes memory m.1 m.0 ram w in
      restore_image-outside more r.0 r.1 a (ground arith) (ground arith)
      ∙ write_bytes-outside m.1 m.0 ram w a (ground arith) (ground arith)

module _ {Text W : Type 0} (format : Format Text) ⦃coding : Coding⦄ (zlib : Bool)
    (memory : Controller W) where
  -- The document is for this memory, with this rom, for a ram of this layout, and for this cpu: what
  -- it holds for them is `ram` and `cpu'`.
  pub record IsCompatible (rom_layout ram_layout : Layout) (uuid : List ℕ) (d : Document Text)
      (cpu : Intel8080) (w : W) (cpu' : Intel8080) (ram : List ℕ) : Type 0 where
    pub some_uuid : uuid ≢ replicate 16 0
    pub same_uuid : txt_to_bin zlib "base64" "none" 16 d.uuid ≡ inr uuid
    pub same_rom :
        txt_to_bin zlib "base64" "none" 16 d.rom ≡ inr (coding.md5 (image memory rom_layout w))
    pub decoded : txt_to_bin zlib d.encoder d.compressor d.size d.bytes ≡ inr ram
    pub same_size : length ram ≡ ram_size ram_layout
    pub same_cpu : Snapshot.load format d.cpu cpu ≡ inr cpu'

module _ {Text : Type 0} (format : Format Text) ⦃coding : Coding⦄ (zlib : Bool) where
  pub check_uuid-inr :
      (uuid : List ℕ) (d : Document Text) (x : List ℕ)
      → check_uuid format zlib uuid d ≡ inr x
      → (uuid ≢ replicate 16 0) × (txt_to_bin zlib "base64" "none" 16 d.uuid ≡ inr uuid)
  unfolding check_uuid
  check_uuid-inr uuid d x e =
      let (valid, e1) = not_refused invalid_uuid (same_bytes uuid (replicate 16 0)) _ x e in
      let (u, read, e2) =
        and_then-inr (from_coding (txt_to_bin zlib "base64" "none" 16 d.uuid)) _ x e1 in
      let (same, _) = admitted incompatible_memory (same_bytes u uuid) _ x e2 in
      (
        λ empty. true≢false (
            sym (ap (λ y. same_bytes y (replicate 16 0)) empty ∙ same_bytes_refl (replicate 16 0))
            ∙ valid),
        from_coding-inr _ u read ∙ ap inr (same_bytes-≡ u uuid same),
      )

  pub accept_state-inr :
      (layout : Layout) (d : Document Text) (rom : List ℕ) (cpu : Intel8080)
      (x : Intel8080 × List ℕ)
      → accept_state format zlib layout d rom cpu ≡ inr x
      → (txt_to_bin zlib "base64" "none" 16 d.rom ≡ inr (coding.md5 rom))
        × (txt_to_bin zlib d.encoder d.compressor d.size d.bytes ≡ inr x.1)
        × (length x.1 ≡ ram_size layout)
        × (Snapshot.load format d.cpu cpu ≡ inr x.0)
  unfolding accept_state
  accept_state-inr layout d rom cpu x e =
      let (md5, e1, e2) =
        and_then-inr (from_coding (txt_to_bin zlib "base64" "none" 16 d.rom)) _ x e in
      let (same, e3) = admitted incompatible_rom (same_bytes md5 (coding.md5 rom)) _ x e2 in
      let (ram, e4, e5) =
        and_then-inr (from_coding (txt_to_bin zlib d.encoder d.compressor d.size d.bytes)) _ x e3 in
      let (fits, e6) = admitted incompatible_ram (length ram == ram_size layout) _ x e5 in
      let (cpu', e7, e8) = and_then-inr (from_cpu (Snapshot.load format d.cpu cpu)) _ x e6 in
      let made = inr-injective _ _ e8 in
      let size : length ram ≡ ram_size layout = ground (arith, fits) in
      (
        from_coding-inr _ md5 e1 ∙ ap inr (same_bytes-≡ md5 (coding.md5 rom) same),
        from_coding-inr _ ram e4 ∙ ap (λ y. inr y.1) made,
        ap (λ y. length y.1) (sym made) ∙ size,
        from_cpu-inr _ cpu' e7 ∙ ap (λ y. inr y.0) made,
      )
