-- ===== src/Patches.antt =====
-- What src/transaction.rs records about installed hooks, and the jump that an inline hook writes: the
-- live patches, the table slots, the gateways with hooks chained on them. The locks that guard the
-- tables are not modelled: an operation is one step on the table.
pub mod Jump
pub mod Tables
pub mod Overlap
pub mod Tests
use neohook.Base.{
  ℕ, zero, suc, ◌+◌, ◌-◌, ◌%◌, ◌^◌, Bool, true, false, not, ◌&&◌, ◌||◌, Option, none, some, List,
  [], ◌∷◌, ◌++◌, ltb, leb, ◌==◌, if◌then◌else◌, length,
}
use neohook.Base.Words.{saturating_add, usize_mod}
use neohook.Base.Bytes.{to_le_bytes}
use neohook.Base.Maps.{find_key, insert_key, remove_key, member, erase}
use neohook.Base.Errors.{DetourError, invalid_parameter}
use neohook.Base.Results.{Result, ok, err}

pub data JumpType : Type 0 where
  relative5 absolute14 : JumpType

-- The offsets of the stolen instructions at the target and in the trampoline.
pub record RedirectMap : Type 0 where
  pub old_instruction_offsets : List ℕ
  pub new_instruction_offsets : List ℕ

pub data TargetKind : Type 0 where
  normal managed_gateway : TargetKind

pub record InlineData : Type 0 where
  pub target : ℕ
  pub detour : ℕ
  pub trampoline_ptr : ℕ
  pub trampoline_size : ℕ
  pub redirect_base : ℕ
  pub stolen_len : ℕ
  pub jump_type : JumpType
  pub orig_bytes : List ℕ
  pub target_kind : TargetKind
  pub redirect_map : Option RedirectMap

-- `dest - target - 5` on isize, wrapping
pub jump_offset : ℕ → ℕ → ℕ
jump_offset target dest = (dest + (usize_mod - target) + (usize_mod - 5)) % usize_mod

-- The bytes of `patch_buffer` up to `patch_len`. The cast of the offset to i32 keeps its low 32 bits.
unfoldable pub patch_buffer : JumpType → ℕ → ℕ → List ℕ
patch_buffer JumpType.relative5 target dest =
    0xe9 ∷ to_le_bytes 4 (jump_offset target dest % 2 ^ 32)
patch_buffer JumpType.absolute14 target dest =
    (0xff ∷ 0x25 ∷ 0 ∷ 0 ∷ 0 ∷ 0 ∷ []) ++ to_le_bytes 8 dest

unfoldable pub nops : ℕ → List ℕ
nops zero = []
nops (suc n) = 0x90 ∷ nops n

unfoldable pub inline_patch_bytes : InlineData → Result DetourError (List ℕ)
inline_patch_bytes d =
    let patch = patch_buffer d.jump_type d.target d.detour in
    if ltb d.stolen_len (length patch)
    then err invalid_parameter
    else ok (patch ++ nops (d.stolen_len - length patch))

unfoldable pub ranges_overlap : ℕ → ℕ → ℕ → ℕ → Bool
ranges_overlap a a_len b b_len = ltb a (saturating_add b b_len) && ltb b (saturating_add a a_len)

-- The start of each live patch with its length.
abbrev pub LivePatches : Type 0
LivePatches = List (ℕ × ℕ)

pub register_live_patch : ℕ → ℕ → LivePatches → LivePatches
register_live_patch target len patches = insert_key target len patches

pub unregister_live_patch : ℕ → LivePatches → LivePatches
unregister_live_patch target patches = remove_key target patches

unfoldable pub any_overlap : ℕ → ℕ → LivePatches → Bool
any_overlap target len [] = false
any_overlap target len ((start, patched) ∷ rest) =
    ranges_overlap start patched target len || any_overlap target len rest

-- `int3::armed_in_range`, over the targets of the slots of src/int3.rs; a zero is a free slot.
unfoldable pub armed_in_range : List ℕ → ℕ → ℕ → Bool
armed_in_range [] start len = false
armed_in_range (addr ∷ targets) start len =
    (not (addr == 0) && (leb start addr && ltb (addr - start) len))
    || armed_in_range targets start len

unfoldable pub overlaps_live_patch : List ℕ → LivePatches → ℕ → ℕ → Bool
overlaps_live_patch targets patches target len =
    armed_in_range targets target len || any_overlap target len patches

pub live_patch_starts_at : LivePatches → ℕ → Bool
live_patch_starts_at patches target = elim (find_key target patches) [
  | none ↦ false
  | some len ↦ true
]

-- The table slots that live hooks own.
unfoldable pub claim_table_slot : ℕ → List ℕ → Bool × List ℕ
claim_table_slot slot slots = if member slot slots then (false, slots) else (true, slot ∷ slots)

unfoldable pub release_table_slot : ℕ → List ℕ → List ℕ
release_table_slot slot slots = erase slot slots

pub record ChainedGateway : Type 0 where
  pub dependents : ℕ
  pub orphan : Option (ℕ × ℕ)

abbrev pub Chained : Type 0
Chained = List (ℕ × ChainedGateway)

-- `entry(..).or_insert(..).dependents += 1`
pub add_dependent : Option ChainedGateway → ChainedGateway
add_dependent none = record { dependents = 1; orphan = none }
add_dependent (some entry) = record { dependents = entry.dependents + 1; orphan = entry.orphan }

pub add_gateway_dependent : ℕ → Chained → Chained
add_gateway_dependent gateway m = insert_key gateway (add_dependent (find_key gateway m)) m

pub is_none : Option (ℕ × ℕ) → Bool
is_none none = true
is_none (some t) = false

-- Whether the owner is alive, the trampoline to retire, and the table left, for the entry found.
pub drop_dependent : Option ChainedGateway → ℕ → Chained → (Bool × Option (ℕ × ℕ)) × Chained
drop_dependent none gateway m = ((true, none), m)
drop_dependent (some entry) gateway m =
    if ltb 0 (entry.dependents - 1)
    then (
      (is_none entry.orphan, none),
      insert_key gateway (record { dependents = entry.dependents - 1; orphan = entry.orphan }) m,
    )
    else ((is_none entry.orphan, entry.orphan), remove_key gateway m)

pub remove_gateway_dependent : ℕ → Chained → (Bool × Option (ℕ × ℕ)) × Chained
remove_gateway_dependent gateway m = drop_dependent (find_key gateway m) gateway m

pub is_chained_gateway : ℕ → Chained → Bool
is_chained_gateway gateway m = elim (find_key gateway m) [ none ↦ false | some entry ↦ true ]

pub orphan_entry : Option ChainedGateway → ℕ → ℕ → Chained → Bool × Chained
orphan_entry none gateway size m = (false, m)
orphan_entry (some entry) gateway size m =
    if ltb 0 entry.dependents
    then (
      true,
      insert_key gateway (record { dependents = entry.dependents; orphan = some (gateway, size) })
          m,
    )
    else (false, m)

pub orphan_chained_gateway : ℕ → ℕ → Chained → Bool × Chained
orphan_chained_gateway gateway size m = orphan_entry (find_key gateway m) gateway size m
