-- ===== src/Tests/Settings.antt =====
-- The theorems on the options at concrete json.
use mach_emu.Base.{ℕ, ◌≡◌, refl, inr, true, false, Option, none, some, List, [], ◌∷◌, String}
use mach_emu.Base.Int.{ℤ, pos, negsuc}
use mach_emu.Base.Results.{or_throw}
use mach_emu.Options
use mach_emu.Options.Library.{Json, entry}
use mach_emu.Options.{codes, default_opts, cpu_type, ram, rom}
use mach_emu.Options.Invariant.{IsUsable, calls, calls-IsUsable}
use mach_emu.Options.Deprecated.{read_layout-set_options}
use mach_emu.CpuClock.{no_error}
use mach_emu.Machine.Settings.{Settings, set_clock_resolution}
use mach_emu.Machine.Settings.Resolution.{set_clock_resolution_lem}
use mach_emu.Tests.Values.{bool, Value, num, str, obj, end, field, values, values-IsJson}

abbrev cpu_text : List ℕ
cpu_text = codes "{\"cpu\":\"i8080\"}"

abbrev layout_text : List ℕ
layout_text = codes "{\"romOffset\":0,\"romSize\":8192,\"ramOffset\":8192,\"ramSize\":16384}"

abbrev clock_text : List ℕ
clock_text = codes "{\"clockResolution\":20000000}"

abbrev layout_json : Value
layout_json = obj (
    field "romOffset" (num (pos 0)) (
      field "romSize" (num (pos 8192))
        (field "ramOffset" (num (pos 8192)) (field "ramSize" (num (pos 16384)) end))))

abbrev small_json : Value
small_json = obj (
    field "romOffset" (num (pos 256)) (
      field "romSize" (num (pos 5))
        (field "ramOffset" (num (pos 517)) (field "ramSize" (num (pos 6)) end))))

abbrev pub known : List (String × Value)
known =
    ("{\"cpu\":\"i8080\"}", obj (field "cpu" (str "i8080") end))
    ∷ ("{\"romOffset\":0,\"romSize\":8192,\"ramOffset\":8192,\"ramSize\":16384}", layout_json)
    ∷ ("{\"clockResolution\":20000000}", obj (field "clockResolution" (num (pos 20000000)) end))
    ∷ ("{\"romOffset\":256,\"romSize\":5,\"ramOffset\":517,\"ramSize\":6}", small_json)
    ∷ ("{\"clockResolution\":-1}", obj (field "clockResolution" (num (negsuc 0)) end))
    ∷ ("{\"runAsync\":true}", obj (field "runAsync" (bool true) end))
    ∷ ("{\"runAsync\":1}", obj (field "runAsync" (num (pos 1)) end))
    ∷ ("{\"isrFreq\":-1}", obj (field "isrFreq" (num (negsuc 0)) end))
    ∷ []

instance abbrev pub json : Json Value
json = values known

-- No file can be read.
abbrev pub no_files : List ℕ → List ℕ
no_files name = []

-- A frequency that is not refused, one that is, a file that cannot be read, and the defaults.
abbrev history : List (Option (List ℕ))
history =
    some cpu_text
    ∷ some (codes "{\"isrFreq\":-1}")
    ∷ some layout_text
    ∷ some (codes "file://missing")
    ∷ none
    ∷ some cpu_text
    ∷ []

calls-IsUsable_example :
    IsUsable (values-IsJson known) true (calls true no_files (default_opts true) history)
calls-IsUsable_example = calls-IsUsable (values-IsJson known) true no_files history

abbrev pub with_cpu : Value
with_cpu = calls true no_files (default_opts true) (some cpu_text ∷ [])

abbrev deprecated : Value
deprecated = calls true no_files (default_opts true) (some layout_text ∷ [])

read_layout-set_options_example :
    (ram deprecated ≡ inr ((8192, 16384) ∷ []))
    × (rom deprecated ≡ inr ((0, 8192) ∷ []))
    × (true ≡ true → true ≡ true)
unfolding calls Options.set_options Options.parse_opts entry
read_layout-set_options_example =
    read_layout-set_options (values-IsJson known) true no_files layout_text (default_opts true)
      layout_json deprecated refl refl refl refl refl

abbrev pub made : Settings Value ℕ ℕ
made = record {
  options = with_cpu;
  clock = record {
    total_ticks = negsuc 0;
    tick_count = 0;
    time_period = 500;
    error = pos 0;
    epoch = 0;
    last_time = 0;
    time = pos 0;
    max_resolution = 1;
  };
  ticks_per_isr = pos 0;
  running = false;
  on_save = none;
  on_load = none;
}

abbrev print : ℤ → List ℕ
print n = clock_text

set_clock_resolution_lem_example :
    (options : Value) × (freq : ℤ) × (Options.clock_resolution options ≡ inr (pos 20000000))
    × (Options.isr_freq with_cpu ≡ inr freq)
    × (set_clock_resolution true no_files print (λ freq ticks. ticks) (pos 20000000) made
        ≡ inr (
          no_error,
          record made {
            options = options;
            clock = record (made.clock) { total_ticks = pos 40000 };
            ticks_per_isr = pos 40000;
          },
        ))
unfolding Options.parse_opts calls or_throw
set_clock_resolution_lem_example =
    set_clock_resolution_lem (values-IsJson known) true no_files print (λ freq ticks. ticks)
      (pos 20000000) made refl refl
      (calls-IsUsable (values-IsJson known) true no_files (some cpu_text ∷ []))
