-- ===== src/Veh/Manager/Arm.antt =====
-- src/veh.rs: a slot that is published and armed keeps the invariant.
use neohook.Base.{
  ℕ, ◌<◌, ◌≤◌, ◌≡◌, ◌≢◌, sym, subst, ◌∙◌, ◌⊎◌, inl, inr, Bool, true, false, ◌==◌, if_true, if_false,
  arith,
}
use neohook.Base.Assign.{assign}
use neohook.Veh.{slot_count}
use neohook.Veh.Manager.{Os, Veh, publish, set_breakpoint_on_all_threads}
use neohook.Veh.Manager.Threads.{IsHonest, Touches, set_breakpoint_on_all_threads-Touches}
use neohook.Veh.Manager.Invariant.{Clean, Served, IsSound}

pub assign_at : (f : ℕ → ℕ) (at value x : ℕ) → x ≡ at → assign f at value x ≡ value
assign_at f at value x e = if_true {b = x == at} _ _ (ground arith)

pub assign_off : (f : ℕ → ℕ) (at value x : ℕ) → x ≢ at → assign f at value x ≡ f x
assign_off f at value x apart = if_false {b = x == at} _ _ (ground arith)

pub same_or : (i slot : ℕ) → (i ≡ slot) ⊎ (i ≢ slot)
same_or i slot = ground arith

-- A registered handler changes nothing else.
pub IsSound-handler :
    (alive : ℕ → Bool) (v : Veh) (handler : ℕ)
    → 0 < handler
    → IsSound alive v
    → IsSound alive (record v { handler = handler })
IsSound-handler alive v handler pos sound = record {
  served = λ i. elim (sound.served i) [
    | inl out ↦ inl out
    | inr (armed, detour, some_handler) ↦ inr (armed, detour, pos)
  ];
  distinct = sound.distinct;
  swept = elim (sound.swept) [ inl (keep, some_handler) ↦ inl (keep, pos) | inr clean ↦ inr clean ];
}

module _ (alive : ℕ → Bool) (os : Os) (slot target detour : ℕ) (lt : slot < slot_count)
    (target_pos : 0 < target) (detour_pos : 0 < detour) where
  abbrev pub armed_state : Veh → Veh
  armed_state v = record v {
    slots = publish slot target detour v.slots;
    contexts = (set_breakpoint_on_all_threads os slot target true v.contexts).1;
  }

  armed-Served :
      (v : Veh) (i : ℕ)
      → 0 < v.handler
      → ((slot_count ≤ i) ⊎ (v.slots.target i ≡ 0)) ⊎ Served v i
      → ((slot_count ≤ i) ⊎ ((armed_state v).slots.target i ≡ 0)) ⊎ Served (armed_state v) i
  unfolding publish
  armed-Served v i pos old = elim (same_or i slot) [
    | inl here ↦ inr (
      assign_at v.slots.armed slot target i here
          ∙ sym (assign_at v.slots.target slot target i here),
      subst (λ d. 0 < d) (sym (assign_at v.slots.detour slot detour i here)) detour_pos,
      pos,
    )
    | inr apart ↦ elim old [
      | inl (inl out) ↦ inl (inl out)
      | inl (inr free) ↦ inl (inr (assign_off v.slots.target slot target i apart ∙ free))
      | inr (armed, some_detour, handler) ↦ inr (
        assign_off v.slots.armed slot target i apart
            ∙ armed
            ∙ sym (assign_off v.slots.target slot target i apart),
        subst (λ d. 0 < d) (sym (assign_off v.slots.detour slot detour i apart)) some_detour,
        handler,
      )
    ]
  ]

  armed-Clean :
      (v : Veh) (h i : ℕ)
      → Touches os slot target true lt v.contexts ((armed_state v).contexts)
      → ((alive h ≡ false) ⊎ (slot_count ≤ i)) ⊎ Clean v h i
      → ((alive h ≡ false) ⊎ (slot_count ≤ i)) ⊎ Clean (armed_state v) h i
  unfolding publish
  armed-Clean v h i (others, own) (inl out) = inl out
  armed-Clean v h i (others, own) (inr clean) = elim (same_or i slot) [
    | inl here ↦
        inr
          (inl (subst (λ t. 0 < t) (sym (assign_at v.slots.target slot target i here)) target_pos))
    | inr apart ↦ elim (others h i) [
      | inl (inl out) ↦ inl (inr out)
      | inl (inr here) ↦ absurd (apart here)
      | inr same ↦ elim clean [
        | inl used ↦
            inr
              (inl (subst (λ t. 0 < t) (sym (assign_off v.slots.target slot target i apart)) used))
        | inr (inl never) ↦ inr (inr (inl (assign_off v.slots.armed slot target i apart ∙ never)))
        | inr (inr off) ↦
            inr (inr (inr (λ e. off (sym same ∙ e ∙ assign_off v.slots.armed slot target i apart))))
      ]
    ]
  ]

  armed_distinct :
      (v : Veh)
      → ((j : ℕ) → ((j < 0) ⊎ (slot_count ≤ j)) ⊎ (v.slots.target j ≢ target))
      → ((i j : ℕ)
          → ((slot_count ≤ i) ⊎ (slot_count ≤ j))
            ⊎ ((v.slots.target i ≡ 0) ⊎ ((i ≡ j) ⊎ (v.slots.target i ≢ v.slots.target j))))
      → (i j : ℕ)
      → ((slot_count ≤ i) ⊎ (slot_count ≤ j))
        ⊎ (((armed_state v).slots.target i ≡ 0)
            ⊎ ((i ≡ j) ⊎ ((armed_state v).slots.target i ≢ (armed_state v).slots.target j)))
  unfolding publish
  armed_distinct v absent old i j = elim (same_or i slot) [
    | inl here ↦ elim (same_or j slot) [
      | inl there ↦ inr (inr (inl (here ∙ sym there)))
      | inr apart ↦ elim (absent j) [
        | inl (inl impossible) ↦ absurd (omega arith)
        | inl (inr out) ↦ inl (inr out)
        | inr other ↦ inr (
            inr (
              inr (λ e. other (
                sym (assign_off v.slots.target slot target j apart)
                ∙ sym e
                ∙ assign_at v.slots.target slot target i here))))
      ]
    ]
    | inr apart ↦
        let off = assign_off v.slots.target slot target i apart in
        elim (same_or j slot) [
          | inl there ↦ elim (absent i) [
            | inl (inl impossible) ↦ absurd (omega arith)
            | inl (inr out) ↦ inl (inl out)
            | inr other ↦ inr (
                inr (inr (λ e. other (sym off ∙ e ∙ assign_at v.slots.target slot target j there))))
          ]
          | inr far ↦ elim (old i j) [
            | inl out ↦ inl out
            | inr (inl free) ↦ inr (inl (off ∙ free))
            | inr (inr (inl same)) ↦ inr (inr (inl same))
            | inr (inr (inr other)) ↦
                inr (
                  inr
                    (inr (λ e. other (sym off ∙ e ∙ assign_off v.slots.target slot target j far))))
          ]
        ]
  ]

  pub armed_state-IsSound :
      (v : Veh)
      → IsHonest alive os
      → IsSound alive v
      → 0 < v.handler
      → ((j : ℕ) → ((j < 0) ⊎ (slot_count ≤ j)) ⊎ (v.slots.target j ≢ target))
      → IsSound alive (armed_state v)
  armed_state-IsSound v honest sound pos absent = record {
    served = λ i. armed-Served v i pos (sound.served i);
    distinct = armed_distinct v absent sound.distinct;
    swept = elim (sound.swept) [
      | inl kept ↦ inl kept
      | inr clean ↦ inr (λ h i.
          armed-Clean v h i
            (set_breakpoint_on_all_threads-Touches os slot target true lt alive honest v.contexts)
            (clean h i))
    ];
  }
