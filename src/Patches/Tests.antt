-- ===== src/Patches/Tests.antt =====
-- A patch and the tables at given addresses.
use neohook.Base.{
  ℕ, ◌+◌, ◌≤◌, ◌<◌, ◌≡◌, ◌↔◌, ◌⊎◌, inr, refl, true, false, none, some, List, [], ◌∷◌, length, arith,
}
use neohook.Base.Results.{ok, err}
use neohook.Base.Errors.{invalid_parameter}
use neohook.Patches.{
  TargetKind, InlineData, JumpType, jump_offset, patch_buffer, nops, inline_patch_bytes,
  LivePatches, overlaps_live_patch, remove_gateway_dependent, orphan_chained_gateway,
  is_chained_gateway,
}
use neohook.Patches.Jump.{landing, Reaches, jump_len, inline_patch_lands}
use neohook.Patches.Tables.{add_times, remove_times, orphan_retired_once}
use neohook.Patches.Overlap.{AllInside, SlotByte, PatchByte, overlaps_live_patch_iff}

abbrev sample : InlineData
sample = record {
  target = 0x140001000;
  detour = 0x140000000;
  trampoline_ptr = 0x140010000;
  trampoline_size = 64;
  redirect_base = 0x140010000;
  orig_bytes = [];
  target_kind = TargetKind.normal;
  redirect_map = none;
  jump_type = JumpType.relative5;
  stolen_len = 7;
}

abbrev five_bytes : InlineData
five_bytes = record {
  target = 0x140001000;
  detour = 0x7ff800000000;
  trampoline_ptr = 0x140010000;
  trampoline_size = 64;
  redirect_base = 0x140010000;
  orig_bytes = [];
  target_kind = TargetKind.normal;
  redirect_map = none;
  jump_type = JumpType.absolute14;
  stolen_len = 5;
}

backward_jump : inline_patch_bytes sample ≡ ok (0xe9 ∷ 0xfb ∷ 0xef ∷ 0xff ∷ 0xff ∷ 0x90 ∷ 0x90 ∷ [])
unfolding inline_patch_bytes patch_buffer jump_offset nops
backward_jump = refl

absolute_refused : inline_patch_bytes five_bytes ≡ err invalid_parameter
unfolding inline_patch_bytes patch_buffer
absolute_refused = refl

sample-Reaches : Reaches JumpType.relative5 0x140001000 0x140000000
unfolding jump_offset
sample-Reaches = inr (omega arith)

inline_patch_lands_example :
    ((inline_patch_bytes sample ≡ err invalid_parameter) × (7 < jump_len JumpType.relative5))
    ⊎ ((bytes : List ℕ) × (inline_patch_bytes sample ≡ ok bytes)
        × (length bytes ≡ 7)
        × (jump_len JumpType.relative5 ≤ 7)
        × (landing 0x140001000 bytes ≡ some 0x140000000))
inline_patch_lands_example = inline_patch_lands sample (omega arith) (omega arith) sample-Reaches

abbrev patches : LivePatches
patches = (0x1000, 5) ∷ (0x2000, 14) ∷ []

patches-AllInside : AllInside patches
patches-AllInside = (omega arith, omega arith, (omega arith, omega arith, tt))

overlaps_live_patch_iff_example :
    (overlaps_live_patch (0 ∷ 0x3000 ∷ []) patches 0x200d 1 ≡ true) ↔ (
      (x : ℕ) × (0x200d ≤ x)
      × (x < 0x200d + 1)
      × (SlotByte (0 ∷ 0x3000 ∷ []) x ⊎ PatchByte patches x))
overlaps_live_patch_iff_example =
    overlaps_live_patch_iff (0 ∷ 0x3000 ∷ []) patches 0x200d 1 patches-AllInside (omega arith)
      (omega arith)

-- One hook on the gateway, and its release.
orphan_retired_once_example :
    let (taken, dropped) = orphan_chained_gateway 0x5000 64 (add_times 1 0x5000 []) in
    let (answer, left) = remove_gateway_dependent 0x5000 (remove_times 0 0x5000 dropped) in
    (taken ≡ true)
    × (answer ≡ (false, some (0x5000, 64)))
    × (is_chained_gateway 0x5000 left ≡ false)
orphan_retired_once_example = orphan_retired_once 0x5000 0 64 0 [] refl (omega arith)
