-- ===== src/Table/Tests.antt =====
-- An import hook and an export hook at given slots.
use neohook.Base.{◌≡◌, refl, ◌⊎◌, true, false, some, [], ◌∷◌, ◌==◌, if◌then◌else◌, arith}
use neohook.Base.Errors.{iat}
use neohook.Base.Maps.{member}
use neohook.Base.Results.{ok, err}
use neohook.Table.{Tables, Writable, IatHook, EatHook, iat_drop, iat_unhook, iat_detach_finalize}
use neohook.Table.Import
use neohook.Table.Export
use neohook.Table.Import.{iat_unhook_restores, iat_detach_frees}

abbrev tables : Tables
tables = record {
  entry = λ x. if x == 0x10 then 0x2000 else 0x3000;
  claimed_slots = 0x10 ∷ 0x18 ∷ [];
  stub_goal = λ x. 0x2000;
}

abbrev import_hook : IatHook
import_hook = record {
  original_ptr = 0x1000;
  slot = 0x10;
  claimed = true;
  active = true;
  detour = 0x2000;
  enabled = true;
}

abbrev export_hook : EatHook
export_hook = record {
  slot_ptr = 0x18;
  original_rva = 0x400;
  detour_rva = 0x500;
  original_ptr = 0x140000400;
  stub = some 0x140000500;
  claimed = true;
  active = true;
  enabled = true;
}

abbrev every_slot : Writable
every_slot slot = true

abbrev no_slot : Writable
no_slot slot = false

-- The write of `unhook` fails, and that of `Drop` does not.
iat_unhook_restores_example :
    let (answer, after) = iat_unhook no_slot every_slot import_hook tables in
    ((no_slot 0x10 ≡ true) × (answer ≡ ok tt) × Import.Restored import_hook 0x20 tables after)
    ⊎ ((no_slot 0x10 ≡ false)
        × (every_slot 0x10 ≡ true)
        × (answer ≡ err iat)
        × Import.Restored import_hook 0x20 tables after)
    ⊎ ((no_slot 0x10 ≡ false) × (every_slot 0x10 ≡ false) × (answer ≡ err iat) × (after ≡ tables))
iat_unhook_restores_example =
    iat_unhook_restores no_slot every_slot import_hook tables 0x20 refl refl (λ e. omega arith)

iat_detach_frees_example :
    ((iat_drop no_slot
          (iat_detach_finalize no_slot import_hook tables).0
          (iat_detach_finalize no_slot import_hook tables).1).entry
        0x10
      ≡ tables.entry 0x10)
    × (member 0x10
          (iat_drop no_slot
            (iat_detach_finalize no_slot import_hook tables).0
            (iat_detach_finalize no_slot import_hook tables).1).claimed_slots
        ≡ false)
iat_detach_frees_example = iat_detach_frees no_slot import_hook tables refl refl refl
