-- ===== src/Code.antt =====
-- src/code.rs: following the jumps that a linker or a loader puts before a function. `VirtualQuery`
-- and the bytes of memory are parameters; pointer arithmetic wraps at 64 bits.
pub mod Follow
pub mod Tests
use neohook.Base.{
  ℕ, zero, suc, ◌+◌, ◌^◌, Bool, true, false, not, ◌&&◌, ◌||◌, Option, none, some, List, [], ◌∷◌,
  bit_and, leb, ◌==◌, if◌then◌else◌,
}
use neohook.Base.Bytes.{from_le_bytes}
use neohook.Base.Maps.{member}
use neohook.Base.Options.{◌>>=◌}
use neohook.Base.Regions.{Region, Query, is_committed, page_noaccess_or_guard}
use neohook.Base.Words.{checked_add, wrap64, sign_extend}

abbrev pub max_jump_follows : ℕ
max_jump_follows = 32

-- The process as the code can read it.
pub record Space : Type 0 where
  pub query : Query
  pub memory : ℕ → ℕ

-- The range from `start` to `end` lies between the ends of the region, as far as they are words.
pub in_region : ℕ → Option ℕ → Option ℕ → ℕ → Bool
in_region region_start none end start = false
in_region region_start (some region_end) none start = false
in_region region_start (some region_end) (some end) start =
    leb region_start start && leb end region_end

pub region_allows : Option Region → ℕ → ℕ → Bool
region_allows none start len = false
region_allows (some r) start len =
    is_committed r.state
    && bit_and r.protect page_noaccess_or_guard == 0
    && in_region r.base (checked_add r.base r.size) (checked_add start len) start

pub is_readable_range : Space → ℕ → ℕ → Bool
is_readable_range m ptr len = not (ptr == 0 || len == 0) && region_allows (m.query ptr) ptr len

pub bytes_at : (ℕ → ℕ) → ℕ → ℕ → List ℕ
bytes_at memory ptr zero = []
bytes_at memory ptr (suc len) = memory ptr ∷ bytes_at memory (ptr + 1) len

-- A value of `len` bytes.
pub read_value : Space → ℕ → ℕ → Option ℕ
read_value m len ptr =
    if is_readable_range m ptr len then some (from_le_bytes (bytes_at m.memory ptr len)) else none

pub resolve_rip_indirect_jump : Space → ℕ → ℕ → Option ℕ
resolve_rip_indirect_jump m src disp_offset = do
  disp ← read_value m 4 (wrap64 (src + disp_offset))
  read_value m 8 (wrap64 (src + disp_offset + 4 + sign_extend 32 disp))

pub resolve_ff_jump : Space → ℕ → ℕ → Option ℕ
resolve_ff_jump m src modrm_offset = do
  modrm ← read_value m 1 (wrap64 (src + 1 + modrm_offset))
  if not (bit_and modrm 0x38 == 0x20)
      then none
      else if modrm == 0x25
      then resolve_rip_indirect_jump m src (2 + modrm_offset)
      else none

pub resolve_mov_rax : Space → ℕ → Option ℕ
resolve_mov_rax m src = do
  jump ← read_value m 2 (wrap64 (src + 10))
  if jump == 0xe0ff then read_value m 8 (wrap64 (src + 2)) else none

pub resolve_rex_w : Space → ℕ → Option ℕ
resolve_rex_w m src = do
  op1 ← read_value m 1 (wrap64 (src + 1))
  op2 ← read_value m 1 (wrap64 (src + 2))
  if op1 == 0xff && op2 == 0x25
      then resolve_rip_indirect_jump m src 3
      else if op1 == 0xb8
      then resolve_mov_rax m src
      else none

-- The bytes 41 FF E2 are read as one little-endian value.
pub resolve_mov_r10 : Space → ℕ → Option ℕ
resolve_mov_r10 m src = do
  op1 ← read_value m 1 (wrap64 (src + 1))
  if op1 == 0xba
      then (do
        jump ← read_value m 3 (wrap64 (src + 10))
        if jump == 0xe2ff41 then read_value m 8 (wrap64 (src + 2)) else none)
      else none

pub detour_code_from_pointer_once : Space → ℕ → Option ℕ
detour_code_from_pointer_once m src = do
  op0 ← read_value m 1 src
  if op0 == 0xe9
      then (do
        rel ← read_value m 4 (wrap64 (src + 1))
        some (wrap64 (src + 5 + sign_extend 32 rel)))
      else if op0 == 0xeb
      then (do rel ← read_value m 1 (wrap64 (src + 1)); some (wrap64 (src + 2 + sign_extend 8 rel)))
      else if op0 == 0xff
      then resolve_ff_jump m src 0
      else if op0 == 0x48
      then resolve_rex_w m src
      else if op0 == 0x49
      then resolve_mov_r10 m src
      else none

-- The end of one round: the loop stops, or goes on at the next address.
pub follow_next : (ℕ → ℕ) → ℕ → Option ℕ → ℕ
follow_next go_on current none = current
follow_next go_on current (some zero) = current
follow_next go_on current (some (suc next)) = go_on (suc next)

-- The loop, with the rounds left and the addresses seen.
pub follow : Space → ℕ → List ℕ → ℕ → ℕ
follow m zero seen current = current
follow m (suc rounds) seen current =
    let later =
      follow_next (follow m rounds (current ∷ seen)) current
        (detour_code_from_pointer_once m current) in
    if member current seen then current else later

pub detour_code_from_pointer : Space → ℕ → ℕ
detour_code_from_pointer m pointer =
    if pointer == 0 then 0 else follow m max_jump_follows [] pointer
