-- ===== src/Int3/Tests.antt =====
-- One hook of src/int3.rs, from the start of the program to its removal.
use neohook.Base.{ℕ, ◌≡◌, ◌≢◌, ◌⊎◌, inl, inr, refl, true, false, none, some, [], ◌∷◌, ◌==◌, arith}
use neohook.Base.Results.{ok, err}
use neohook.Patches.{overlaps_live_patch, armed_in_range, any_overlap}
use neohook.Int3.{
  Int3State, Int3Hook, already_hooked, handler_registration_failed, Os, int3_opcode,
  status_breakpoint, write_memory_atomic, initial, repeat, find_slot, first_of, finish_arm, publish,
  register, at_slot, arm, arm_with_gateway, install_inner, find_detour, int3_handler, remove,
}
use neohook.Int3.Install.{install_inner_redirects}
use neohook.Int3.Remove.{remove_restores}
use neohook.Int3.Invariant.{Steps, IsSound, Steps-IsSound, stop, followed, installs, removes}

-- `push rbp` at every address
abbrev start : Int3State
start = initial (λ x. 0x55)

abbrev sample_os : Os
sample_os = record {
  add_handler = 0x7000;
  writable = λ x. true;
  in_flight = λ p attempt. attempt == 0;
  gateway_of = λ x. some 0x9000;
  patches = [];
}

abbrev busy_os : Os
busy_os = record {
  add_handler = 0;
  writable = λ x. true;
  in_flight = λ p attempt. true;
  gateway_of = λ x. none;
  patches = [];
}

abbrev hooked : Int3State
hooked = (install_inner sample_os 0x1000 0x2000 false start).1

abbrev hook : Int3Hook
hook = record {
  target = 0x1000;
  detour = 0x2000;
  original_byte = 0x55;
  slot = 0;
  active = true;
  gateway = none;
}

installed : install_inner sample_os 0x1000 0x2000 false start ≡ (ok hook, hooked)
unfolding install_inner arm at_slot register publish finish_arm write_memory_atomic find_slot
    first_of initial repeat overlaps_live_patch armed_in_range any_overlap
installed = refl

hooked_twice : (install_inner sample_os 0x1000 0x3000 true hooked).0 ≡ err already_hooked
unfolding install_inner arm_with_gateway arm at_slot register publish finish_arm write_memory_atomic
    find_slot first_of initial repeat overlaps_live_patch armed_in_range any_overlap
hooked_twice = refl

not_registered :
    (install_inner busy_os 0x1000 0x2000 false start).0 ≡ err handler_registration_failed
unfolding install_inner arm at_slot register publish finish_arm write_memory_atomic find_slot
    first_of initial repeat overlaps_live_patch armed_in_range any_overlap
not_registered = refl

-- A hook at another address, whose trap the install must leave alone.
abbrev before : Int3State
before = record {
  slot_target = 0x500 ∷ 0 ∷ [];
  slot_detour = 0x600 ∷ 0 ∷ [];
  retired = 0 ∷ 0 ∷ [];
  retired_next = 1;
  handler = 0x7000;
  memory = λ x. 0x55;
}

abbrev before_hook : Int3Hook
before_hook = (record {
  target = 0x1000;
  detour = 0x2000;
  original_byte = 0x55;
  slot = 1;
  active = true;
  gateway = some 0x9000;
})

abbrev beside : Int3State
beside = (install_inner sample_os 0x1000 0x2000 true before).1

beside_installed : install_inner sample_os 0x1000 0x2000 true before ≡ (ok before_hook, beside)
unfolding install_inner arm_with_gateway arm at_slot register publish finish_arm write_memory_atomic
    find_slot first_of overlaps_live_patch armed_in_range any_overlap
beside_installed = refl

-- The first install of the program.
install_inner_redirects_example :
    (hooked.memory 0x1000 ≡ int3_opcode)
    × (hooked.memory 0x500 ≡ 0x55)
    × (hook.original_byte ≡ 0x55)
    × (hooked.handler ≢ 0)
    × (int3_handler hooked (some (status_breakpoint, 0x1000)) ≡ some 0x2000)
    × (((find_detour start.slot_target start.slot_detour 0x500 ≡ none)
          × (find_detour hooked.slot_target hooked.slot_detour 0x500 ≡ none))
        ⊎ ((goal : ℕ) × (find_detour start.slot_target start.slot_detour 0x500 ≡ some goal)
            × (int3_handler hooked (some (status_breakpoint, 0x500)) ≡ some goal)))
unfolding initial
install_inner_redirects_example =
    install_inner_redirects sample_os 0x1000 0x2000 false start hook hooked 0x500 refl installed
      (λ e. omega arith) (λ e. omega arith)

abbrev unhooked : Int3State
unhooked = (remove sample_os before_hook beside).1

remove_restores_example :
    (unhooked.memory 0x1000 ≡ 0x55)
    × (unhooked.slot_target ≡ 0x500 ∷ 0 ∷ [])
    × (unhooked.slot_detour ≡ 0x600 ∷ 0 ∷ [])
    × ((unhooked.handler ≡ 0)
        ⊎ (int3_handler unhooked (some (status_breakpoint, 0x1000)) ≡ some 0x1000))
remove_restores_example =
    remove_restores sample_os sample_os 0x1000 0x2000 true before before_hook beside 0x1000
      (omega arith) (λ e. omega arith) refl beside_installed

sample-Steps : Steps before unhooked
sample-Steps =
    followed before beside unhooked (installs sample_os 0x1000 0x2000 true before)
      (followed beside unhooked unhooked (removes sample_os before_hook beside) (stop unhooked))

before-IsSound : IsSound before
before-IsSound = ((inr refl, (inl refl, tt)), inr (λ e. omega arith))

Steps-IsSound_example : IsSound unhooked
Steps-IsSound_example = Steps-IsSound before unhooked sample-Steps before-IsSound
