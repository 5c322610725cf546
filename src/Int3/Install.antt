-- ===== src/Int3/Install.antt =====
-- `install_inner` and `arm` of src/int3.rs: when a hook is installed, and what its trap then does.
use neohook.Base.{
  ℕ, ◌≡◌, ◌≢◌, refl, sym, ap, ◌∙◌, ◌⊎◌, inl, inr, Bool, true, false, ◌||◌, Option, none, some,
  length, get_elem?, Bool-cases, Option-cases, ◌==◌, if_true, if_false, arith,
}
use neohook.Base.Maps.{member}
use neohook.Base.Results.{Result, ok, err}
use neohook.Patches.{overlaps_live_patch}
use neohook.Int3.{
  Int3HookError, Int3State, Int3Hook, Os, int3_opcode, status_breakpoint, write_byte,
  write_memory_atomic, with_slot, with_handler, with_memory, finish_arm, publish, register, at_slot,
  arm, arm_with_gateway, install_inner, find_detour, handle_stale, int3_handler,
}
use neohook.Int3.Slots.{find_slot_cases, find_detour-set, find_detour-set_other}

-- The state after a hook was installed in slot `k`, with the handler `handler`.
abbrev pub armed : Int3State → ℕ → ℕ → ℕ → ℕ → Int3State
armed s k handler target detour =
    with_memory (with_slot (with_handler s handler) k target detour)
      (write_byte target int3_opcode s.memory)

pub record Armed (os : Os) (s : Int3State) (target detour : ℕ) (hook : Int3Hook) (after : Int3State)
    : Type 0 where
  pub slot : ℕ
  pub handler : ℕ
  pub registered : handler ≢ 0
  pub target_not_null : target ≢ 0
  pub absent : member target s.slot_target ≡ false
  pub was_free : get_elem? s.slot_target slot ≡ some 0
  pub hook_slot : hook.slot ≡ slot
  pub hook_target : hook.target ≡ target
  pub hook_byte : hook.original_byte ≡ s.memory target
  pub hook_active : hook.active ≡ true
  pub state : after ≡ armed s slot handler target detour

pub write_cases :
    (os : Os) (addr byte : ℕ) (memory : ℕ → ℕ)
    → (write_memory_atomic os addr byte memory ≡ none)
      ⊎ ((addr ≢ 0)
          × (write_memory_atomic os addr byte memory
              ≡ some (memory addr, write_byte addr byte memory)))
unfolding write_memory_atomic
write_cases os addr byte memory = elim (Bool-cases (addr == 0)) [
  | inl null ↦ inl (rw null refl)
  | inr nz ↦ elim (Bool-cases (os.writable addr)) [
    | inl can ↦ inr (ground arith, rw nz (rw can refl))
    | inr cannot ↦ inl (rw nz (rw cannot refl))
  ]
]

same_ok :
    {a b : Int3Hook} {x y : Int3State}
    (e : Path (Result Int3HookError Int3Hook × Int3State) (ok a, x) (ok b, y))
    → (b ≡ a) × (y ≡ x)
same_ok e = (cc, cc)

not_ok :
    {E : Int3HookError} {b : Int3Hook} {x y : Int3State}
    (e : Path (Result Int3HookError Int3Hook × Int3State) (err E, x) (ok b, y))
    → ⊥
not_ok e = cc

module _ (os : Os) (target detour : ℕ) (gateway : Option ℕ) where
  publish-ok :
      (k handler : ℕ) (s : Int3State) (hook : Int3Hook) (after : Int3State)
      → handler ≢ 0
      → member target s.slot_target ≡ false
      → get_elem? s.slot_target k ≡ some 0
      → publish os target detour gateway k (with_handler s handler) ≡ (ok hook, after)
      → Armed os s target detour hook after
  unfolding publish finish_arm
  publish-ok k handler s hook after live absent free e =
      let finish =
        finish_arm os target detour gateway k
          (with_slot (with_handler s handler) k target detour) in
      elim (write_cases os target int3_opcode s.memory) [
        | inl failed ↦ absurd (not_ok (sym (ap finish failed) ∙ e))
        | inr (nz, done) ↦
            let (same_hook, same_state) = same_ok (sym (ap finish done) ∙ e) in
            record {
              slot = k;
              handler = handler;
              registered = live;
              target_not_null = nz;
              absent = absent;
              was_free = free;
              hook_slot = ap (λ (h : Int3Hook). h.slot) same_hook;
              hook_target = ap (λ (h : Int3Hook). h.target) same_hook;
              hook_byte = ap (λ (h : Int3Hook). h.original_byte) same_hook;
              hook_active = ap (λ (h : Int3Hook). h.active) same_hook;
              state = same_state;
            }
      ]

  register-ok :
      (k : ℕ) (s : Int3State) (hook : Int3Hook) (after : Int3State)
      → member target s.slot_target ≡ false
      → get_elem? s.slot_target k ≡ some 0
      → register os target detour gateway k s ≡ (ok hook, after)
      → Armed os s target detour hook after
  unfolding register
  register-ok k s hook after absent free e = elim (Bool-cases (s.handler == 0)) [
    | inl idle ↦ elim (Bool-cases (os.add_handler == 0)) [
      | inl null ↦ absurd (not_ok (sym (if_true _ _ idle ∙ if_true _ _ null) ∙ e))
      | inr got ↦
          publish-ok k os.add_handler s hook after (ground arith) absent free
            (sym (if_true _ _ idle ∙ if_false _ _ got) ∙ e)
    ]
    | inr live ↦
        publish-ok k s.handler s hook after (ground arith) absent free (sym (if_false _ _ live) ∙ e)
  ]

  pub arm-ok :
      (s : Int3State) (hook : Int3Hook) (after : Int3State)
      → arm os target detour gateway s ≡ (ok hook, after)
      → Armed os s target detour hook after
  unfolding arm at_slot
  arm-ok s hook after e =
      let over = overlaps_live_patch s.slot_target os.patches target 1 in
      let search = at_slot os target detour gateway s in
      elim (Bool-cases over) [
        | inl hit ↦ absurd (not_ok (sym (if_true _ _ hit) ∙ e))
        | inr clear ↦ elim (find_slot_cases target s.slot_target 0) [
          | inl (m, found) ↦ absurd (not_ok (sym (if_false _ _ clear ∙ ap search found) ∙ e))
          | inr (inl (m, all, found)) ↦
              absurd (not_ok (sym (if_false _ _ clear ∙ ap search found) ∙ e))
          | inr (inr (m, (k, free, found))) ↦ register-ok k s hook after m free (
              sym (if_false _ _ clear ∙ ap search (found ∙ ap (λ j. ok (some j)) (omega arith)))
              ∙ e)
        ]
      ]

pub install_inner-ok :
    (os : Os) (target detour : ℕ) (want : Bool) (s : Int3State) (hook : Int3Hook)
    (after : Int3State)
    → install_inner os target detour want s ≡ (ok hook, after)
    → (detour ≢ 0) × Armed os s target detour hook after
unfolding install_inner arm_with_gateway
install_inner-ok os target detour want s hook after e =
    elim (Bool-cases (target == 0 || detour == 0)) [
      | inl null ↦ absurd (not_ok (sym (if_true _ _ null) ∙ e))
      | inr given ↦ elim (Bool-cases want) [
        | inl gateway ↦ elim (Option-cases (os.gateway_of target)) [
          | inl failed ↦ absurd (
              not_ok (
                sym (
                  if_false _ _ given
                  ∙ if_true _ _ gateway
                  ∙ ap (λ g. arm_with_gateway os target detour g s) failed)
                ∙ e))
          | inr (g, built) ↦ (
            ground arith,
            arm-ok os target detour (some g) s hook after (
                sym (
                  if_false _ _ given
                  ∙ if_true _ _ gateway
                  ∙ ap (λ g. arm_with_gateway os target detour g s) built)
                ∙ e),
          )
        ]
        | inr plain ↦ (
          ground arith,
          arm-ok os target detour none s hook after
              (sym (if_false _ _ given ∙ if_false _ _ plain) ∙ e),
        )
      ]
    ]

-- What the handler does with a breakpoint at `addr`, written out.
pub trap_at :
    (s : Int3State) (addr : ℕ)
    → addr ≢ 0
    → int3_handler s (some (status_breakpoint, addr))
      ≡ handle_stale s addr (find_detour s.slot_target s.slot_detour addr)
unfolding int3_handler
trap_at s addr nz = ground arith

-- When an install succeeds, the first one or a later one, from any state whose two slot tables have one
-- length, the target begins with the breakpoint byte, another byte `addr` is as it was and the hook
-- keeps the byte that was at the target, the handler is registered, and a trap at the target goes on in
-- the detour. An `addr` that is not null and was in no slot still is in none, and a trap at one that a
-- slot sent to a goal is sent there.
pub install_inner_redirects :
    (os : Os) (target detour : ℕ) (want : Bool) (s : Int3State) (hook : Int3Hook)
    (after : Int3State) (addr : ℕ)
    → length s.slot_target ≡ length s.slot_detour
    → install_inner os target detour want s ≡ (ok hook, after)
    → addr ≢ target
    → addr ≢ 0
    → (after.memory target ≡ int3_opcode)
      × (after.memory addr ≡ s.memory addr)
      × (hook.original_byte ≡ s.memory target)
      × (after.handler ≢ 0)
      × (int3_handler after (some (status_breakpoint, target)) ≡ some detour)
      × (((find_detour s.slot_target s.slot_detour addr ≡ none)
            × (find_detour after.slot_target after.slot_detour addr ≡ none))
          ⊎ ((goal : ℕ) × (find_detour s.slot_target s.slot_detour addr ≡ some goal)
              × (int3_handler after (some (status_breakpoint, addr)) ≡ some goal)))
unfolding handle_stale
install_inner_redirects os target detour want s hook after addr len e other nz =
    let (dnz, a) = install_inner-ok os target detour want s hook after e in
    let found =
      find_detour-set s.slot_target s.slot_detour a.slot target detour len a.was_free a.absent
        dnz in
    let state = a.state in
    let kept =
      find_detour-set_other s.slot_target s.slot_detour a.slot target detour addr a.was_free other
        nz in
    let now = armed s a.slot a.handler target detour in
    (
      rw state (ground arith),
      rw state (ground arith),
      a.hook_byte,
      λ z. a.registered (sym (ap (λ (t : Int3State). t.handler) state) ∙ z),
      trap_at after target a.target_not_null
          ∙ ap
              (λ (t : Int3State).
                handle_stale t target (find_detour t.slot_target t.slot_detour target))
              state
          ∙ ap (handle_stale now target) found,
      elim (Option-cases (find_detour s.slot_target s.slot_detour addr)) [
        | inl nothing ↦ inl (
          nothing,
          ap (λ (t : Int3State). find_detour t.slot_target t.slot_detour addr) state
              ∙ kept
              ∙ nothing,
        )
        | inr (goal, found_goal) ↦ inr (
          goal,
          found_goal,
          trap_at after addr nz
              ∙ ap
                  (λ (t : Int3State).
                    handle_stale t addr (find_detour t.slot_target t.slot_detour addr))
                  state
              ∙ ap (handle_stale now addr) (kept ∙ found_goal),
        )
      ],
    )
