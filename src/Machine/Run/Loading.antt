-- ===== src/Machine/Run/Loading.antt =====
-- Which cpu a state from the load callback may leave.
use mathlib.Core.Path.{subst}
use mach_emu.Base.{
  ℕ, ◌≡◌, refl, Bool, true, false, ◌==◌, if◌then◌else◌, Option, none, some, ◌⊎◌, inl, inr, List,
  length, u8, arith,
}
use mach_emu.Base.Results.{and_then}
use mach_emu.Bits.{Bitset, of_ulong}
use mach_emu.Controller.{Controller}
use mach_emu.Cpu.State.{Intel8080}
use mach_emu.Cpu.Snapshot
use mach_emu.Cpu.Snapshot.{Format, LoadFailure, same_bytes, restore, restore_parsed}
use mach_emu.Cpu.Valid.{IsValid}
use mach_emu.Utils.Libraries.{Coding}
use mach_emu.Utils.{txt_to_bin}
use mach_emu.Machine.Images.{
  Layout, Document, Failure, from_coding, from_cpu, ram_size, incompatible_ram, incompatible_rom,
  accept_state, finish_load, load_checked, load_machine_state, check_uuid,
}

-- The bits of the status that are no flags are as the cpu keeps them.
abbrev pub IsStatus : Bitset → Type 0
IsStatus r = (r.bit1 ≡ true) × (r.bit3 ≡ false) × (r.bit5 ≡ false)

module _ {Text : Type 0} (format : Format Text) where
  -- The json of a cpu, if it is read, has such a status.
  abbrev pub IsSound : Text → Type 0
  IsSound text = (t : Snapshot.Document) → format.parse text ≡ some t → IsStatus (of_ulong (u8 t.s))

-- A result that satisfies P, if it is no exception.
data Results {E A : Type 0} (P : A → Type 0) : E ⊎ A → Type 0 where
  thrown : {e : E} → Results P (inl e)
  returned : {a : A} → P a → Results P (inr a)

from_returned : {E A : Type 0} (P : A → Type 0) (a : A) → Results {E = E} P (inr a) → P a
from_returned P a (returned h) = h

and_then-Results :
    {E A B : Type 0} (P : B → Type 0) (x : E ⊎ A) (f : A → E ⊎ B)
    → ((a : A) → x ≡ inr a → Results P (f a))
    → Results P (and_then x f)
unfolding and_then
and_then-Results P (inl e) f h = thrown
and_then-Results P (inr a) f h = h a refl

if-Results :
    {E A : Type 0} (P : A → Type 0) (condition : Bool) (x y : E ⊎ A)
    → Results P x
    → Results P y
    → Results P (if condition then x else y)
if-Results P true x y h k = h
if-Results P false x y h k = k

module _ {Text : Type 0} (format : Format Text) (cpu : Intel8080) (h : IsValid cpu) where
  restored-IsValid :
      (t : Snapshot.Document) → IsStatus (of_ulong (u8 t.s)) → Results IsValid (restore t cpu)
  unfolding restore
  restored-IsValid t (one, three, five) =
      if-Results IsValid (same_bytes t.uuid Snapshot.uuid) _ _
        (returned record {
          pc_fits = omega arith;
          sp_fits = omega arith;
          opcode_fits = h.opcode_fits;
          one = one;
          three = three;
          five = five;
        })
        thrown

  loaded-IsValid :
      (parsed : Option Snapshot.Document)
      → ((t : Snapshot.Document) → parsed ≡ some t → IsStatus (of_ulong (u8 t.s)))
      → Results IsValid (restore_parsed parsed cpu)
  unfolding restore_parsed
  loaded-IsValid none sound = thrown
  loaded-IsValid (some t) sound = restored-IsValid t (sound t refl)

  from_cpu-Results :
      (x : LoadFailure ⊎ Intel8080) → Results IsValid x → Results IsValid (from_cpu x)
  unfolding from_cpu
  from_cpu-Results (inl e) thrown = thrown
  from_cpu-Results (inr a) (returned good) = returned good

  module _ ⦃coding : Coding⦄ (zlib : Bool) where
    accept_state-Results :
        (ram_layout : Layout) (document : Document Text) (rom : List ℕ)
        → IsSound format document.cpu
        → Results (λ x. IsValid x.0) (accept_state format zlib ram_layout document rom cpu)
    unfolding accept_state Snapshot.load and_then
    accept_state-Results ram_layout document rom sound =
        checked_rom (from_coding (txt_to_bin zlib "base64" "none" 16 document.rom))
      where
        accepted :
            (cpu' : Intel8080)
            → from_cpu (restore_parsed (format.parse document.cpu) cpu) ≡ inr cpu'
            → IsValid cpu'
        accepted cpu' e = from_returned IsValid cpu' (
            subst (Results IsValid) e
              (from_cpu-Results _ (loaded-IsValid (format.parse document.cpu) sound)))

        P : Intel8080 × List ℕ → Type 0
        P x = IsValid x.0

        with_ram : List ℕ → Failure ⊎ (Intel8080 × List ℕ)
        with_ram ram =
            if length ram == ram_size ram_layout
            then and_then (from_cpu (Snapshot.load format document.cpu cpu))
                (λ cpu'. inr (cpu', ram))
            else inl incompatible_ram

        ram_bytes : Failure ⊎ List ℕ
        ram_bytes =
            from_coding
              (txt_to_bin zlib document.encoder document.compressor document.size document.bytes)

        fits : (ram : List ℕ) → Results P (with_ram ram)
        fits ram =
            if-Results P (length ram == ram_size ram_layout) _ _
              (and_then-Results P (from_cpu (Snapshot.load format document.cpu cpu))
                (λ cpu'. inr (cpu', ram)) (λ cpu' e. returned (accepted cpu' e)))
              thrown

        checked_rom :
            (x : Failure ⊎ List ℕ)
            → Results P (
                and_then x (λ json_md5.
                  if same_bytes json_md5 (coding.md5 rom)
                  then and_then ram_bytes with_ram
                  else inl incompatible_rom))
        checked_rom x = and_then-Results P x _ (λ json_md5 e.
            if-Results P (same_bytes json_md5 (coding.md5 rom)) _ _
              (and_then-Results P ram_bytes with_ram (λ ram e. fits ram)) thrown)

    -- A document whose cpu is sound leaves a valid cpu, whether it is accepted or not.
    pub load_machine_state-IsValid :
        {W : Type 0} (memory : Controller W) (rom ram : Layout) (uuid : List ℕ)
        (document : Document Text) (w : W)
        → IsSound format document.cpu
        → IsValid (load_machine_state format zlib memory rom ram uuid document cpu w).1
    unfolding load_machine_state load_checked finish_load
    load_machine_state-IsValid memory rom ram uuid document w sound =
        checked (check_uuid format zlib uuid document)
      where
        finished :
            {W : Type 0} (memory : Controller W) (w : W) (x : Failure ⊎ (Intel8080 × List ℕ))
            → Results (λ x. IsValid x.0) x
            → IsValid (finish_load format zlib memory ram cpu w x).1
        finished memory w (inl e) thrown = h
        finished memory w (inr x) (returned good) = good

        checked :
            (x : Failure ⊎ List ℕ)
            → IsValid (load_checked format zlib memory rom ram document cpu w x).1
        checked (inl e) = h
        checked (inr a) = finished memory _ _ (accept_state-Results ram document _ sound)
