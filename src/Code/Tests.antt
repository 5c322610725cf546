-- ===== src/Code/Tests.antt =====
-- A short jump to a jump through a slot, in one region.
use neohook.Base.{
  ℕ, List, [], length, ◌⊎◌, ◌+◌, ◌≤◌, ◌<◌, ◌≡◌, ◌≢◌, refl, true, some, bit_and, ◌==◌, if◌then◌else◌,
  ◌^◌, arith,
}
use neohook.Base.Regions.{Region, RegionState, is_committed, page_noaccess_or_guard}
use neohook.Code.{
  Space, in_region, region_allows, is_readable_range, bytes_at, read_value, resolve_ff_jump,
  resolve_rip_indirect_jump, detour_code_from_pointer_once, follow, follow_next,
  detour_code_from_pointer,
}
use neohook.Code.Follow.{Leads, Fresh, onto, IsEnd, detour_code_follows, readable_in_region}

-- At 0x1000 `jmp 0x1010`, at 0x1010 `jmp [rip + 2]`, whose slot at 0x1018 holds 0x1020.
abbrev bytes : ℕ → ℕ
bytes x =
    if x == 0x1000
    then 0xeb
    else if x == 0x1001
    then 0x0e
    else if x == 0x1010
    then 0xff
    else if x == 0x1011
    then 0x25
    else if x == 0x1012
    then 2
    else if x == 0x1018
    then 0x20
    else if x == 0x1019
    then 0x10
    else 0

abbrev page : Region
page = record {
  base = 0x1000;
  size = 0x1000;
  allocation = 0x1000;
  state = RegionState.committed;
  protect = 0x20;
}

abbrev space : Space
space = record { query = λ x. some page; memory = bytes }

first_jump : detour_code_from_pointer_once space 0x1000 ≡ some 0x1010
unfolding detour_code_from_pointer_once read_value is_readable_range region_allows in_region
    bytes_at
first_jump = refl

both_jumps : detour_code_from_pointer space 0x1000 ≡ 0x1020
unfolding detour_code_from_pointer follow follow_next detour_code_from_pointer_once resolve_ff_jump
    resolve_rip_indirect_jump read_value is_readable_range region_allows in_region bytes_at
both_jumps = refl

detour_code_follows_example :
    (detour_code_from_pointer space 0x1000 ≢ 0)
    × ((passed : List ℕ) × Leads space passed 0x1000 (detour_code_from_pointer space 0x1000)
        × Fresh [] passed
        × (length passed ≤ 32)
        × (IsEnd space (onto [] passed) (detour_code_from_pointer space 0x1000)
            ⊎ (length passed ≡ 32)))
detour_code_follows_example = detour_code_follows space 0x1000 (λ e. omega arith)

space_readable : is_readable_range space 0x1ff8 8 ≡ true
unfolding is_readable_range region_allows in_region
space_readable = refl

abbrev last_slot : ℕ
last_slot = 0x1ff8

readable_in_region_example :
    (r : Region) × (space.query last_slot ≡ some r)
    × (is_committed r.state ≡ true)
    × (bit_and r.protect page_noaccess_or_guard ≡ 0)
    × (last_slot ≢ 0)
    × (0 < 8)
    × (r.base ≤ last_slot)
    × (last_slot + 8 ≤ r.base + r.size)
    × (r.base + r.size < 2 ^ 64)
readable_in_region_example = readable_in_region space last_slot 8 space_readable
