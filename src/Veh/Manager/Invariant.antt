-- ===== src/Veh/Manager/Invariant.antt =====
-- src/veh.rs: what holds of the slots, the handler and the debug registers between two operations.
use neohook.Base.{ℕ, ◌<◌, ◌≤◌, ◌≡◌, ◌≢◌, ◌⊎◌, Bool, true, false}
use neohook.Veh.{debug_address, slot_count}
use neohook.Veh.Manager.{Veh, VehHook}

-- The thread holds no breakpoint of a removed hook in this slot.
abbrev pub Clean : Veh → ℕ → ℕ → Type 0
Clean v h i =
    (0 < v.slots.target i)
    ⊎ ((v.slots.armed i ≡ 0) ⊎ (debug_address (v.contexts h) i ≢ v.slots.armed i))

abbrev pub Served : Veh → ℕ → Type 0
Served v i = (v.slots.armed i ≡ v.slots.target i) × (0 < v.slots.detour i) × (0 < v.handler)

-- A slot in use has a detour and the handler; no two slots have the same target; and while no disarm
-- has failed, no thread that runs all the time holds a breakpoint of a removed hook.
pub record IsSound (alive : ℕ → Bool) (v : Veh) : Type 0 where
  pub served : (i : ℕ) → ((slot_count ≤ i) ⊎ (v.slots.target i ≡ 0)) ⊎ Served v i
  pub distinct :
      (i j : ℕ)
      → ((slot_count ≤ i) ⊎ (slot_count ≤ j))
        ⊎ ((v.slots.target i ≡ 0) ⊎ ((i ≡ j) ⊎ (v.slots.target i ≢ v.slots.target j)))
  pub swept :
      ((v.keep_handler ≡ true) × (0 < v.handler))
      ⊎ ((h i : ℕ) → ((alive h ≡ false) ⊎ (slot_count ≤ i)) ⊎ Clean v h i)

-- The hook's own slot.
pub record Owns (v : Veh) (hook : VehHook) : Type 0 where
  pub active : hook.active ≡ true
  pub in_range : hook.slot < slot_count
  pub target : v.slots.target hook.slot ≡ hook.target
  pub detour : v.slots.detour hook.slot ≡ hook.detour
  pub target_pos : 0 < hook.target
  pub detour_pos : 0 < hook.detour
