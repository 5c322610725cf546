-- ===== src/Redirect.antt =====
-- src/transaction.rs: how a commit moves suspended threads away from the bytes that an inline hook
-- overwrites, and how a rollback moves them back. The contexts of the threads and the words on their
-- stacks are state; which contexts can be read and written, `VirtualQuery` and the bytes of code are
-- parameters. The words are read and written at multiples of eight only, so that they stand apart.
pub mod Settled
pub mod Steps
pub mod Undo
pub mod Tests
use neohook.Base.{
  ℕ, zero, suc, ◌+◌, ◌-◌, ◌*◌, ◌/◌, ◌%◌, ◌^◌, Bool, true, false, not, ◌&&◌, ◌||◌, Option, none,
  some, List, [], ◌∷◌, ◌++◌, length, get_elem?, bit_and, ltb, leb, ◌==◌, if◌then◌else◌,
}
use neohook.Base.Assign.{assign}
use neohook.Base.Errors.{DetourError, relocation_failed}
use neohook.Base.Regions.{Region, Query, is_committed, page_noaccess_or_guard}
use neohook.Base.Results.{Result, ok, err}
use neohook.Base.Words.{wrap64, not64, usize_mod, saturating_add}
use neohook.Patches.{InlineData, TargetKind, RedirectMap}

abbrev pub max_stack_scan_bytes : ℕ
max_stack_scan_bytes = 33554432

pub record Os : Type 0 where
  pub can_get : ℕ → Bool
  pub can_set : ℕ → Bool
  pub query : Query
  pub code : ℕ → ℕ

-- The contexts by thread handle, the words on the stacks, and what the transaction records. The
-- capacities are reserved before any thread is suspended.
pub record Machine : Type 0 where
  pub ip : ℕ → ℕ
  pub sp : ℕ → ℕ
  pub words : ℕ → ℕ
  pub redirected_threads : List (ℕ × ℕ)
  pub thread_capacity : ℕ
  pub redirected_stacks : List (ℕ × (ℕ × ℕ))
  pub stack_capacity : ℕ

-- The address lies in the bytes that the hook overwrites, which end below 2^64.
unfoldable pub in_stolen : InlineData → ℕ → Bool
in_stolen d addr = leb d.target addr && ltb addr (d.target + d.stolen_len)

pub one_later : Option ℕ → Option ℕ
one_later none = none
one_later (some i) = some (i + 1)

pub position : ℕ → List ℕ → Option ℕ
position x [] = none
position x (y ∷ ys) = let later = one_later (position x ys) in if y == x then some 0 else later

-- `u32::MAX` marks an instruction that has no counterpart. The two lists of a map have one length; an
-- index past the second, where the code would panic, is an error here.
pub moved_to : InlineData → Option ℕ → Result DetourError (Option ℕ)
moved_to d none = err relocation_failed
moved_to d (some new_rel) =
    if new_rel == 2 ^ 32 - 1
    then err relocation_failed
    else ok (some (wrap64 (d.redirect_base + new_rel)))

pub moved_index : InlineData → RedirectMap → Option ℕ → Result DetourError (Option ℕ)
moved_index d m none = ok none
moved_index d m (some index) = moved_to d (get_elem? m.new_instruction_offsets index)

pub map_normal : InlineData → Option RedirectMap → ℕ → Result DetourError (Option ℕ)
map_normal d none addr = err relocation_failed
map_normal d (some m) addr =
    if ltb (addr - d.target) (2 ^ 32)
    then moved_index d m (position (addr - d.target) m.old_instruction_offsets)
    else err relocation_failed

unfoldable pub map_kind : TargetKind → InlineData → ℕ → Result DetourError (Option ℕ)
map_kind TargetKind.managed_gateway d addr =
    ok (some (wrap64 (d.redirect_base + (addr - d.target))))
map_kind TargetKind.normal d addr = map_normal d d.redirect_map addr

unfoldable pub map_redirect_address_exact : InlineData → ℕ → Result DetourError (Option ℕ)
map_redirect_address_exact d addr =
    if in_stolen d addr then map_kind d.target_kind d addr else ok none

-- The byte at `value - k`, from the saved bytes or from the page of the target.
pub window_byte : InlineData → (ℕ → ℕ) → ℕ → ℕ → Option ℕ
window_byte d code value k =
    if ltb value k
    then none
    else if leb d.target (value - k)
    then get_elem? d.orig_bytes (value - k - d.target)
    else if leb (bit_and d.target (not64 0xfff)) (value - k)
    then some (code (value - k))
    else none

-- The bytes before `value`, the nearest first, from the one at `value - k` on.
pub window : InlineData → (ℕ → ℕ) → ℕ → ℕ → ℕ → List ℕ
window d code value k zero = []
window d code value k (suc rounds) = elim (window_byte d code value k) [
  | none ↦ []
  | some byte ↦ byte ∷ window d code value (k + 1) rounds
]

-- `window[k]`, which is 0 where nothing was read.
pub before : List ℕ → ℕ → ℕ
before w zero = 0
before w (suc k) = elim (get_elem? w k) [ none ↦ 0 | some byte ↦ byte ]

-- The length of `FF /2` with this ModRM byte; the SIB byte is the one after it.
pub encoded_len : List ℕ → ℕ → ℕ → Option ℕ
encoded_len w len modrm =
    if modrm / 64 == 3
    then some 2
    else if modrm / 64 == 0
    then if modrm % 8 == 5
      then some 6
      else if modrm % 8 == 4
      then if ltb len 3 then none else if before w (len - 2) % 8 == 5 then some 7 else some 3
      else some 2
    else if modrm / 64 == 1
    then if modrm % 8 == 4 then some 4 else some 3
    else if modrm % 8 == 4
    then some 7
    else some 6

pub is_call_of : List ℕ → ℕ → Bool
is_call_of w len =
    before w len == 0xff
    && before w (len - 1) / 8 % 8 == 2
    && (elim (encoded_len w len (before w (len - 1))) [ none ↦ false | some n ↦ n == len ])

-- The loop over the lengths from `len` on.
pub any_call : List ℕ → ℕ → ℕ → Bool
any_call w len zero = false
any_call w len (suc rounds) = is_call_of w len || any_call w (len + 1) rounds

pub is_plausible_return_address : InlineData → (ℕ → ℕ) → ℕ → Bool
is_plausible_return_address d code value =
    let w = window d code value 1 7 in
    ltb d.target value
    && ltb value (d.target + d.stolen_len)
    && ((leb 5 (length w) && before w 5 == 0xe8) || any_call w 2 (length w - 1))

abbrev pub Outcome : Type 0
Outcome = Result DetourError (Unit {0}) × Machine

-- The instruction pointer of the thread after its new place was looked up.
unfoldable pub move_ip : Os → ℕ → Machine → Result DetourError (Option ℕ) → Outcome
move_ip os h m (err e) = (err e, m)
move_ip os h m (ok none) = (err relocation_failed, m)
move_ip os h m (ok (some goal)) =
    let recorded = record m { redirected_threads = m.redirected_threads ++ (h, m.ip h) ∷ [] } in
    if leb m.thread_capacity (length m.redirected_threads)
    then (err relocation_failed, m)
    else if os.can_set h
    then (ok tt, record recorded { ip = assign m.ip h goal })
    else (err relocation_failed, recorded)

unfoldable pub redirect_ip : Os → InlineData → ℕ → Machine → Outcome
redirect_ip os d h m =
    if in_stolen d (m.ip h)
    then move_ip os h m (map_redirect_address_exact d (m.ip h))
    else (ok tt, m)

-- A stack slot after the new place of the address it holds was looked up.
pub move_slot : ℕ → ℕ → Machine → Result DetourError (Option ℕ) → Outcome
move_slot h slot m (err e) = (err e, m)
move_slot h slot m (ok none) = (ok tt, m)
move_slot h slot m (ok (some goal)) =
    if leb m.stack_capacity (length m.redirected_stacks) then (err relocation_failed, m) else (
      ok tt,
      record m {
        redirected_stacks = m.redirected_stacks ++ (h, (slot, m.words slot)) ∷ [];
        words = assign m.words slot goal;
      },
    )

pub redirect_slot : Os → InlineData → ℕ → ℕ → Machine → Outcome
redirect_slot os d h slot m =
    if is_plausible_return_address d os.code (m.words slot)
    then move_slot h slot m (map_redirect_address_exact d (m.words slot))
    else (ok tt, m)

-- Goes on with the machine after a success.
unfoldable pub and_then : Outcome → (Machine → Outcome) → Outcome
and_then (err e, m) next = (err e, m)
and_then (ok done, m) next = next m

-- The slots of one region: `rounds` of them, of which the first is at `slot`, with the bytes scanned
-- before.
pub scan_slots : Os → InlineData → ℕ → ℕ → ℕ → ℕ → Machine → Outcome
scan_slots os d h zero slot scanned m = (ok tt, m)
scan_slots os d h (suc rounds) slot scanned m =
    if ltb max_stack_scan_bytes (scanned + 8)
    then (err relocation_failed, m)
    else and_then (redirect_slot os d h slot m) (scan_slots os d h rounds (slot + 8) (scanned + 8))

abbrev pub next_multiple_of_8 : ℕ → ℕ
next_multiple_of_8 a = (a + 7) / 8 * 8

pub is_readable : Region → Bool
is_readable r = is_committed r.state && bit_and r.protect page_noaccess_or_guard == 0

-- The number of words from the slot to the end of the region.
pub slots_in : ℕ → ℕ → ℕ
slots_in slot region_end = (region_end - slot) / 8

-- One round of the loop over the regions of the stack's reservation; `go_on` makes the later ones,
-- from the end of the region and with the bytes scanned so far.
pub scan_region :
    Os
    → InlineData
    → ℕ
    → (ℕ → ℕ → Machine → Outcome)
    → ℕ
    → ℕ
    → ℕ
    → Machine
    → Option Region
    → Outcome
scan_region os d h go_on allocation region scanned m none = (ok tt, m)
scan_region os d h go_on allocation region scanned m (some r) =
    let region_end = saturating_add r.base r.size in
    let slot = next_multiple_of_8 region in
    let slots = if is_readable r then slots_in slot region_end else 0 in
    if not (r.allocation == allocation) || leb region_end region
    then (ok tt, m)
    else and_then (scan_slots os d h slots slot scanned m) (go_on region_end (scanned + slots * 8))

-- The loop; `fuel` bounds the rounds, of which each advances by a byte at least.
pub scan_stack : Os → InlineData → ℕ → ℕ → ℕ → ℕ → ℕ → Machine → Outcome
scan_stack os d h zero allocation region scanned m = (ok tt, m)
scan_stack os d h (suc fuel) allocation region scanned m =
    scan_region os d h (scan_stack os d h fuel allocation) allocation region scanned m
      (os.query region)

unfoldable pub scan_from : Os → InlineData → ℕ → Machine → Option Region → Outcome
scan_from os d h m none = (ok tt, m)
scan_from os d h m (some r) = scan_stack os d h usize_mod r.allocation (m.sp h) 0 m

unfoldable pub redirect_stack : Os → InlineData → ℕ → Machine → Outcome
redirect_stack os d h m = scan_from os d h m (os.query (m.sp h))

unfoldable pub redirect_rip_relative_threads : Os → InlineData → ℕ → Machine → Outcome
redirect_rip_relative_threads os d h m =
    if os.can_get h then and_then (redirect_ip os d h m) (redirect_stack os d h) else (ok tt, m)

-- The loop of `install_inline` over the tracked threads.
unfoldable pub redirect_threads : Os → InlineData → List ℕ → Machine → Outcome
redirect_threads os d [] m = (ok tt, m)
redirect_threads os d (h ∷ hs) m =
    and_then (redirect_rip_relative_threads os d h m) (redirect_threads os d hs)

-- The same for the inline hooks of a commit, one after the other.
pub redirect_all : Os → List InlineData → List ℕ → Machine → Outcome
redirect_all os [] hs m = (ok tt, m)
redirect_all os (d ∷ ds) hs m = and_then (redirect_threads os d hs m) (redirect_all os ds hs)

pub restore_ips : Os → List (ℕ × ℕ) → (ℕ → ℕ) → ℕ → ℕ
restore_ips os [] ip = ip
restore_ips os ((h, original) ∷ rest) ip =
    restore_ips os rest (if os.can_get h && os.can_set h then assign ip h original else ip)

pub restore_words : List (ℕ × (ℕ × ℕ)) → (ℕ → ℕ) → ℕ → ℕ
restore_words [] words = words
restore_words ((h, (slot, original)) ∷ rest) words = restore_words rest (assign words slot original)

-- The part of `rollback` that moves threads back.
pub rollback_threads : Os → Machine → Machine
rollback_threads os m = record m {
  ip = restore_ips os m.redirected_threads m.ip;
  redirected_threads = [];
  words = restore_words m.redirected_stacks m.words;
  redirected_stacks = [];
}
