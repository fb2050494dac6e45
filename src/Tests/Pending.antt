-- ===== src/Tests/Pending.antt =====
-- The theorem on what is pending, on a machine with one byte of memory.
use mach_emu.Base.{ℕ, ◌+◌, ◌≡◌, refl, true, false, ◌||◌, Option, none, some, [], ◌∷◌, replicate}
use mach_emu.Controller.{isr_load, isr_save, isr_quit, no_interrupt}
use mach_emu.Cpu.State.{St, ready}
use mach_emu.Cpu.Snapshot
use mach_emu.Machine.Images.{Document}
use mach_emu.Machine.Handlers.{not_valid, launched, valid, Pending, Session, answer}
use mach_emu.Machine.Handlers.Exclusion.{IsExclusive, nothing_pending}
use mach_emu.Machine.Handlers.Reachable.{Reaches, at_start, answered, Reaches_lem}
use mach_emu.Tests.{cpu}
use mach_emu.Tests.Running.{plain}
use mach_emu.Tests.Coding.{coding}

-- The world counts what is asked of it. A load in another thread is never found ready.
abbrev session : Session ℕ Snapshot.Document
session = record {
  load_callback = some (λ w. (none, w + 1));
  save_callback = some (λ text w. w + 1);
  load_async = true;
  save_async = false;
  ready = λ w. (false, w + 1);
  memory = record {
    read = λ a w. (7, w);
    write = λ a v w. w;
    service_interrupts = λ time cycles w. (no_interrupt, w);
  };
  uuid = replicate 16 1;
  rom = some [];
  ram = some ((0, 1) ∷ []);
  names = some ("base64", "none");
}

abbrev print : Document Snapshot.Document → Snapshot.Document
print d = d.cpu

abbrev parse : Snapshot.Document → Option (Document Snapshot.Document)
parse text = none

abbrev loading : Pending Snapshot.Document
loading = record { on_load = launched; on_save = not_valid; save_state = none }

loading-Reaches : Reaches session plain false print parse loading
unfolding answer
loading-Reaches =
    answered 0 isr_load nothing_pending loading (ready cpu 0) (ready cpu 1) at_start refl

Reaches_lem_example :
    IsExclusive session loading
    × (true ≡ true
        → (answer session plain false print parse 2 isr_load loading (ready cpu 1)
            ≡ some (loading, ready cpu 1))
          × (answer session plain false print parse 2 isr_save loading (ready cpu 1)
              ≡ some (loading, ready cpu 1)))
    × ((q : Pending Snapshot.Document) × (t : St ℕ) × (answer session plain false print parse 2
            isr_quit loading
            (ready cpu 1)
          ≡ some (q, t))
        × ((valid q.on_load || valid q.on_save) ≡ false))
Reaches_lem_example =
    Reaches_lem session plain false print parse 2 loading (ready cpu 1) loading-Reaches
