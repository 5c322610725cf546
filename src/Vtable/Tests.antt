-- ===== src/Vtable/Tests.antt =====
-- Examples of hooks of a virtual table's slot, and the witness of their life.
use neohook.Base.{◌≡◌, ◌⊎◌, refl, true, false, List, [], ◌∷◌}
use neohook.Base.Maps.{member}
use neohook.Base.Results.{ok, err}
use neohook.Patches.{claim_table_slot, release_table_slot}
use neohook.Vtable.{
  Os, Tables, VtableHook, VtableError, install, install_claimed, installed, write_locked,
  write_slot, disable, with_enabled, drop_hook, release, detach_finalize, finalized,
}
use neohook.Vtable.Live.{Toggle, toggle_all}
use neohook.Vtable.Writes.{IsRefused}
use neohook.Vtable.Life.{drop_hook-install}

abbrev writable : Os
writable = record { lifts = λ slot. true; restores = λ slot. true }

abbrev fixed : Os
fixed = record { lifts = λ slot. false; restores = λ slot. true }

abbrev start : Tables
start = record { words = λ x. 0x5000; claimed_slots = [] }

abbrev hook : VtableHook
hook = record {
  slot = 0x1008;
  original_ptr = 0x5000;
  detour = 0x9000;
  claimed = true;
  active = true;
  enabled = true;
}

abbrev after : Tables
after = (install writable 0x1000 1 0x9000 start).1

installs : install writable 0x1000 1 0x9000 start ≡ (ok hook, after)
unfolding install install_claimed installed write_locked claim_table_slot
installs = refl

taken : (install writable 0x1000 1 0x9000 after).0 ≡ err VtableError.slot_taken
unfolding install install_claimed installed write_locked claim_table_slot
taken = refl

-- A hook that could not be restored when it was finalized gives its slot free when it is dropped,
-- although the slot still holds the detour.
finalized_and_dropped :
    let (ended, t) = detach_finalize fixed hook after in
    ((drop_hook fixed ended t).words 0x1008 ≡ 0x9000)
    × (member 0x1008 ((drop_hook fixed ended t).claimed_slots) ≡ false)
unfolding detach_finalize finalized disable with_enabled write_slot drop_hook release install
    install_claimed installed write_locked claim_table_slot release_table_slot
finalized_and_dropped = (refl, refl)

abbrev toggles : List Toggle
toggles = Toggle.turn_off writable ∷ Toggle.turn_on fixed ∷ Toggle.turn_on writable ∷ []

drop_hook-install_example :
    let (now, t) = toggle_all toggles (hook, after) in
    (((drop_hook writable now t).words 0x1008 ≡ 0x5000)
      × ((drop_hook writable now t).claimed_slots ≡ []))
    ⊎ (IsRefused writable 0x1008
        × ((drop_hook writable now t).words 0x1008 ≡ t.words 0x1008)
        × (member 0x1008 (drop_hook writable now t).claimed_slots ≡ true))
drop_hook-install_example =
    drop_hook-install writable writable 0x1000 1 0x9000 start after hook toggles 0x1008 installs
