-- ===== src/Int3/Remove.antt =====
-- `remove` of src/int3.rs: what it restores, and what a trap taken just before it still finds.
use neohook.Base.{
  ℕ, zero, suc, ◌+◌, ◌%◌, ◌<◌, ◌≡◌, ◌≢◌, refl, sym, ap, ◌∙◌, ◌⊎◌, inl, inr, Bool, true, false, ◌||◌,
  some, List, length, get_elem?, set, Bool-cases, ◌==◌, if_true, if_false, arith,
}
use neohook.Base.Maps.{member}
use neohook.Base.Results.{ok}
use neohook.Int3.{
  Int3State, Int3Hook, Os, int3_opcode, status_breakpoint, write_byte, write_memory_atomic,
  any_live, clear_handler, release_loop, release_idle_handler, is_retired, install_inner, remove,
  memory_after, handle_stale, int3_handler,
}
use neohook.Int3.Slots.{set-set, set-get_elem, find_detour-absent, member-set}
use neohook.Int3.Install.{armed, install_inner-ok, trap_at}

release_loop_cases :
    (os : Os) (s : Int3State) (left attempt : ℕ)
    → (release_loop os s left attempt ≡ s) ⊎ (release_loop os s left attempt ≡ clear_handler s)
unfolding release_loop
release_loop_cases os s zero attempt = inl refl
release_loop_cases os s (suc left) attempt =
    elim (Bool-cases (os.in_flight (is_retired s.retired) attempt)) [
      | inl busy ↦ elim (release_loop_cases os s left (attempt + 1)) [
        | inl kept ↦ inl (if_true _ _ busy ∙ kept)
        | inr gone ↦ inr (if_true _ _ busy ∙ gone)
      ]
      | inr idle ↦ inr (if_false _ _ idle)
    ]

-- The handler is kept, or no slot is live and it is removed.
pub release_cases :
    (os : Os) (s : Int3State)
    → (release_idle_handler os s ≡ s)
      ⊎ ((any_live s.slot_target ≡ false) × (release_idle_handler os s ≡ clear_handler s))
unfolding release_idle_handler
release_cases os s = elim (Bool-cases (s.handler == 0 || any_live s.slot_target)) [
  | inl used ↦ inl (if_true _ _ used)
  | inr idle ↦ elim (release_loop_cases os s 5 0) [
    | inl kept ↦ inl (if_false _ _ idle ∙ kept)
    | inr gone ↦ inr (ground arith, if_false _ _ idle ∙ gone)
  ]
]

pub release_keeps :
    (os : Os) (s : Int3State)
    → ((release_idle_handler os s).slot_target ≡ s.slot_target)
      × ((release_idle_handler os s).memory ≡ s.memory)
release_keeps os s = elim (release_cases os s) [
  | inl kept ↦ (ap (λ (t : Int3State). t.slot_target) kept, ap (λ (t : Int3State). t.memory) kept)
  | inr (idle, gone) ↦
      (ap (λ (t : Int3State). t.slot_target) gone, ap (λ (t : Int3State). t.memory) gone)
]

release_keeps_detours :
    (os : Os) (s : Int3State) → (release_idle_handler os s).slot_detour ≡ s.slot_detour
release_keeps_detours os s = elim (release_cases os s) [
  | inl kept ↦ ap (λ (t : Int3State). t.slot_detour) kept
  | inr (idle, gone) ↦ ap (λ (t : Int3State). t.slot_detour) gone
]

-- The state just before `release_idle_handler`, when the byte was written.
abbrev removed : Int3State → ℕ → ℕ → ℕ → ℕ → Int3State
removed s next target byte slot = record {
  slot_target = set s.slot_target slot 0;
  slot_detour = set s.slot_detour slot 0;
  retired = set s.retired s.retired_next target;
  retired_next = next;
  handler = s.handler;
  memory = write_byte target byte s.memory;
}

same_test : (x : ℕ) → (x == x) ≡ true
same_test x = ground arith

byte_test : (x y : ℕ) → x ≢ y → (x == y) ≡ false
byte_test x y d = ground arith

zero_test : (x : ℕ) → x ≢ 0 → (x == 0) ≡ false
zero_test x nz = ground arith

remove-active :
    (os : Os) (hook : Int3Hook) (s : Int3State) (target byte slot : ℕ)
    → hook.active ≡ true
    → hook.target ≡ target
    → hook.original_byte ≡ byte
    → hook.slot ≡ slot
    → target ≢ 0
    → os.writable target ≡ true
    → (remove os hook s).1
      ≡ release_idle_handler os (removed s ((s.retired_next + 1) % 1024) target byte slot)
unfolding remove write_memory_atomic memory_after
remove-active os hook s target byte slot on et eb es nz can =
    rw (on, et, eb, es, zero_test target nz, can) refl

pub restored_targets : (ts : List ℕ) (k t : ℕ) → get_elem? ts k ≡ some 0 → set (set ts k t) k 0 ≡ ts
restored_targets ts k t free = set-set ts k t 0 ∙ set-get_elem ts k 0 free

stale_trap :
    (s : Int3State) (addr : ℕ)
    → addr ≢ 0
    → member addr s.slot_target ≡ false
    → member addr s.retired ≡ true
    → s.memory addr ≢ int3_opcode
    → int3_handler s (some (status_breakpoint, addr)) ≡ some addr
unfolding handle_stale
stale_trap s addr nz absent known byte =
    trap_at s addr nz
    ∙ ap (λ o. handle_stale s addr o) (find_detour-absent s.slot_target s.slot_detour addr absent)
    ∙ if_true _ _ known
    ∙ if_false _ _ (byte_test (s.memory addr) int3_opcode byte)

memory_undone :
    (memory : ℕ → ℕ) (target x written byte : ℕ)
    → byte ≡ memory target
    → write_byte target byte (write_byte target written memory) x ≡ memory x
memory_undone memory target x written byte e = elim (Bool-cases (x == target)) [
  | inl here ↦ if_true _ _ here ∙ e ∙ ap memory (ground arith)
  | inr apart ↦ if_false _ _ apart ∙ if_false _ _ apart
]

-- A hook that is removed right after it was installed, where the target stays writable and did not
-- begin with a breakpoint byte of its own, and the next place among the retired targets is one of the
-- table's: every byte of memory and the target of every slot is as before the install, the detour of
-- every slot is as well, but that of the hook's slot is cleared, and a thread that trapped before the
-- removal re-runs the restored byte, as long as the handler is registered.
pub remove_restores :
    (os later : Os) (target detour : ℕ) (want : Bool) (s : Int3State) (hook : Int3Hook)
    (after : Int3State) (x : ℕ)
    → s.retired_next < length s.retired
    → s.memory target ≢ int3_opcode
    → later.writable target ≡ true
    → install_inner os target detour want s ≡ (ok hook, after)
    → ((remove later hook after).1.memory x ≡ s.memory x)
      × ((remove later hook after).1.slot_target ≡ s.slot_target)
      × ((remove later hook after).1.slot_detour ≡ set s.slot_detour hook.slot 0)
      × (((remove later hook after).1.handler ≡ 0)
          ⊎ (int3_handler (remove later hook after).1 (some (status_breakpoint, target))
              ≡ some target))
remove_restores os later target detour want s hook after x room byte can e =
    let (dnz, a) = install_inner-ok os target detour want s hook after e in
    let now = armed s a.slot a.handler target detour in
    let gone = removed now ((s.retired_next + 1) % 1024) target (s.memory target) a.slot in
    let same =
      ap (λ (t : Int3State). (remove later hook t).1) a.state
      ∙ remove-active later hook now target (s.memory target) a.slot a.hook_active a.hook_target
          a.hook_byte a.hook_slot a.target_not_null can in
    let (slots, memory) = release_keeps later gone in
    let back = restored_targets s.slot_target a.slot target a.was_free in
    (
      ap (λ (t : Int3State). t.memory x) same
          ∙ ap (λ m. m x) memory
          ∙ memory_undone s.memory target x int3_opcode (s.memory target) refl,
      ap (λ (t : Int3State). t.slot_target) same ∙ slots ∙ back,
      ap (λ (t : Int3State). t.slot_detour) same
          ∙ release_keeps_detours later gone
          ∙ set-set s.slot_detour a.slot detour 0
          ∙ ap (λ k. set s.slot_detour k 0) (sym a.hook_slot),
      elim (release_cases later gone) [
        | inl kept ↦ inr (
            ap (λ (t : Int3State). int3_handler t (some (status_breakpoint, target))) (same ∙ kept)
            ∙ stale_trap gone target a.target_not_null (ap (member target) back ∙ a.absent)
                (member-set s.retired s.retired_next target room)
                (λ z. byte (sym (if_true _ _ (same_test target)) ∙ z)))
        | inr (idle, cleared) ↦ inl (ap (λ (t : Int3State). t.handler) (same ∙ cleared))
      ],
    )
