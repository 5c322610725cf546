-- ===== src/Redirect/Tests.antt =====
-- Examples of redirecting threads, and the witness of the rollback.
use neohook.Base.{
  ℕ, ◌≡◌, refl, ◌&&◌, true, false, none, some, [], ◌∷◌, ltb, leb, ◌==◌, if◌then◌else◌, arith,
}
use neohook.Base.Regions.{Region, RegionState}
use neohook.Base.Results.{ok}
use neohook.Patches.{InlineData, TargetKind, JumpType}
use neohook.Redirect.{
  Os, Machine, in_stolen, map_kind, redirect_rip_relative_threads, redirect_ip, redirect_stack,
  scan_from, scan_stack, scan_region, scan_slots, redirect_slot, move_ip, move_slot, and_then,
  window, window_byte, before, any_call, is_call_of, encoded_len, is_readable, slots_in,
  map_redirect_address_exact, redirect_threads, redirect_all, rollback_threads,
  is_plausible_return_address,
}
use neohook.Redirect.Settled.{LandsOutside}
use neohook.Redirect.Undo.{rollback_threads-redirect_all}

-- A call of five bytes and a `nop` of two were moved to a gateway.
abbrev gateway : InlineData
gateway = record {
  target = 0x140001000;
  detour = 0x140000000;
  trampoline_ptr = 0x180000000;
  trampoline_size = 64;
  redirect_base = 0x180000000;
  stolen_len = 7;
  jump_type = JumpType.relative5;
  orig_bytes = 0xe8 ∷ 0 ∷ 0 ∷ 0 ∷ 0 ∷ 0x66 ∷ 0x90 ∷ [];
  target_kind = TargetKind.managed_gateway;
  redirect_map = none;
}

abbrev stack : Region
stack = record {
  base = 0x20000;
  size = 16;
  allocation = 0x20000;
  state = RegionState.committed;
  protect = 4;
}

abbrev windows : Os
windows = record {
  can_get = λ h. true;
  can_set = λ h. true;
  query = λ addr. if leb 0x20000 addr && ltb addr 0x20010 then some stack else none;
  code = λ addr. 0xcc;
}

-- Thread 1 stands on the second byte of the target, and will return behind the call.
abbrev suspended : Machine
suspended = record {
  ip = λ h. 0x140001002;
  sp = λ h. 0x20000;
  words = λ slot. if slot == 0x20008 then 0x140001005 else 7;
  redirected_threads = [];
  thread_capacity = 4;
  redirected_stacks = [];
  stack_capacity = 4;
}

thread_moved : ((redirect_all windows (gateway ∷ []) (1 ∷ []) suspended).1).ip 1 ≡ 0x180000002
unfolding redirect_all redirect_threads redirect_rip_relative_threads redirect_ip redirect_stack
    scan_from scan_stack scan_region scan_slots redirect_slot move_ip move_slot and_then
    map_redirect_address_exact map_kind in_stolen is_plausible_return_address window window_byte
    before any_call is_call_of encoded_len is_readable slots_in
thread_moved = refl

return_moved :
    ((redirect_all windows (gateway ∷ []) (1 ∷ []) suspended).1).words 0x20008 ≡ 0x180000005
unfolding redirect_all redirect_threads redirect_rip_relative_threads redirect_ip redirect_stack
    scan_from scan_stack scan_region scan_slots redirect_slot move_ip move_slot and_then
    map_redirect_address_exact map_kind in_stolen is_plausible_return_address window window_byte
    before any_call is_call_of encoded_len is_readable slots_in
return_moved = refl

gateway_goal :
    (addr goal : ℕ)
    → map_redirect_address_exact gateway addr ≡ ok (some goal)
    → in_stolen gateway goal ≡ false
unfolding map_redirect_address_exact map_kind in_stolen
gateway_goal addr goal e = ground arith

gateway-LandsOutside : LandsOutside (gateway ∷ []) gateway
gateway-LandsOutside addr goal e = (gateway_goal addr goal e, tt)

rollback_threads-redirect_all_example :
    ((rollback_threads windows ((redirect_all windows (gateway ∷ []) (1 ∷ []) suspended).1)).ip 1
      ≡ 0x140001002)
    × ((rollback_threads windows ((redirect_all windows (gateway ∷ []) (1 ∷ []) suspended).1)).words
          0x20008
        ≡ 0x140001005)
rollback_threads-redirect_all_example =
    rollback_threads-redirect_all windows windows (gateway ∷ []) (1 ∷ []) suspended
      (gateway-LandsOutside, tt) refl refl 1 0x20008 refl refl
