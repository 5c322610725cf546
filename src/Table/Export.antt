-- ===== src/Table/Export.antt =====
-- The export hooks of src/transaction.rs, with their jump stubs.
use neohook.Base.{ℕ, ◌≡◌, false}
use neohook.Base.Maps.{member}
use neohook.Table.{Tables, update, EatHook, eat_given_up}

-- The tables once the export hook's entry, slot and stub are given up.
given_back : EatHook → Tables → Tables
given_back hook t =
    eat_given_up hook (record t { entry = update t.entry hook.slot_ptr hook.original_rva })

-- The entry is the original RVA, the stub leads to the original export, and the slot is free.
abbrev pub Restored : EatHook → ℕ → Tables → Type 0
Restored hook stub after =
    (after.entry hook.slot_ptr ≡ hook.original_rva)
    × (after.stub_goal stub ≡ hook.original_ptr)
    × (member hook.slot_ptr after.claimed_slots ≡ false)
