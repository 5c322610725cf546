-- ===== src/Vtable/Live.antt =====
-- src/vtable.rs: enabling and disabling keep a hook live.
use neohook.Base.{
  ℕ, ◌≡◌, refl, sym, ap, subst, ◌∙◌, ◌⊎◌, inl, inr, Bool, true, false, not, List, [], ◌∷◌,
  if◌then◌else◌, if_true, if_false, Bool-cases,
}
use neohook.Base.Assign.{assign}
use neohook.Base.Results.{ok, err}
use neohook.Vtable.{
  Os, Tables, VtableHook, VtableError, Answer, write_slot, with_enabled, disable, enable,
}
use neohook.Vtable.Writes.{same_or, assign_at, assign_off, Writes, write_slot-Writes}

-- A live hook: its slot is claimed and holds the detour or, where the hook is disabled, the original;
-- the other words are those of `first`.
pub record IsLive (first : ℕ → ℕ) (claims : List ℕ) (hook : VtableHook) (t : Tables) : Type 0 where
  pub claimed : hook.claimed ≡ true
  pub active : hook.active ≡ true
  pub claims_kept : t.claimed_slots ≡ claims
  pub original : hook.original_ptr ≡ first hook.slot
  pub at_slot : t.words hook.slot ≡ (if hook.enabled then hook.detour else hook.original_ptr)
  pub elsewhere : (x : ℕ) → (x ≡ hook.slot) ⊎ (t.words x ≡ first x)

-- Enabling or disabling keeps the hook live, whether its write succeeds or not.
with_enabled-IsLive :
    (first : ℕ → ℕ) (claims : List ℕ) (hook : VtableHook) (on : Bool) (t : Tables)
    (r : Answer × Tables)
    → IsLive first claims hook t
    → Writes hook.slot (if on then hook.detour else hook.original_ptr) t r
    → IsLive first claims (((with_enabled hook on r).1).0) (((with_enabled hook on r).1).1)
unfolding with_enabled
with_enabled-IsLive first claims hook on t (ok done, u) live (inl (fine, wrote)) =
    let value = if on then hook.detour else hook.original_ptr in
    let words : (x : ℕ) → u.words x ≡ assign t.words hook.slot value x =
      λ x. ap (λ (w : Tables). w.words x) wrote in
    record {
      claimed = live.claimed;
      active = live.active;
      claims_kept = ap (λ (w : Tables). w.claimed_slots) wrote ∙ live.claims_kept;
      original = live.original;
      at_slot = words hook.slot ∙ assign_at t.words hook.slot value hook.slot refl;
      elsewhere = λ x. elim (same_or x hook.slot) [
        | inl here ↦ inl here
        | inr apart ↦ elim (live.elsewhere x) [
          | inl here ↦ inl here
          | inr same ↦ inr (words x ∙ assign_off t.words hook.slot value x apart ∙ same)
        ]
      ];
    }
with_enabled-IsLive first claims hook on t (ok done, u) live (inr (e, failed, kept, same)) =
    absurd (ok_err failed)
  where
    ok_err : {d : Unit {0}} {f : VtableError} → ◌≡◌ {A = Answer} (ok d) (err f) → ⊥
    ok_err p = cc
with_enabled-IsLive first claims hook on t (err e, u) live (inl (fine, wrote)) =
    absurd (err_ok fine)
  where
    err_ok : {d : Unit {0}} {f : VtableError} → ◌≡◌ {A = Answer} (err f) (ok d) → ⊥
    err_ok p = cc
with_enabled-IsLive first claims hook on t (err e, u) live (inr (f, failed, kept, same)) = record {
  claimed = live.claimed;
  active = live.active;
  claims_kept = kept ∙ live.claims_kept;
  original = live.original;
  at_slot = same hook.slot ∙ live.at_slot;
  elsewhere = λ x. elim (live.elsewhere x) [ inl here ↦ inl here | inr e ↦ inr (same x ∙ e) ];
}

-- A call of the program on a hook that it owns.
pub data Toggle : Type 0 where
  turn_on turn_off : Os → Toggle

pub toggled : Toggle → VtableHook × Tables → VtableHook × Tables
toggled (Toggle.turn_on os) (hook, t) = (enable os hook t).1
toggled (Toggle.turn_off os) (hook, t) = (disable os hook t).1

pub toggle_all : List Toggle → VtableHook × Tables → VtableHook × Tables
toggle_all [] s = s
toggle_all (one ∷ rest) s = toggle_all rest (toggled one s)

abbrev pub Lives : (ℕ → ℕ) → List ℕ → VtableHook × Tables → Type 0
Lives first claims (hook, t) = IsLive first claims hook t

toggled-IsLive :
    (first : ℕ → ℕ) (claims : List ℕ) (one : Toggle) (hook : VtableHook) (t : Tables)
    → IsLive first claims hook t
    → Lives first claims (toggled one (hook, t))
unfolding toggled enable disable
toggled-IsLive first claims (Toggle.turn_off os) hook t live = elim (Bool-cases hook.enabled) [
  | inr off ↦
      subst (λ (r : Answer × (VtableHook × Tables)). Lives first claims (r.1))
        (sym (if_false _ _ off)) live
  | inl on ↦
      subst (λ (r : Answer × (VtableHook × Tables)). Lives first claims (r.1))
        (sym (if_true _ _ on))
        (with_enabled-IsLive first claims hook false t (write_slot os hook.slot hook.original_ptr t)
          live (write_slot-Writes os hook.slot hook.original_ptr t))
]
toggled-IsLive first claims (Toggle.turn_on os) hook t live = elim (Bool-cases hook.enabled) [
  | inl on ↦
      subst (λ (r : Answer × (VtableHook × Tables)). Lives first claims (r.1))
        (sym (if_false _ _ (ap not live.active) ∙ if_true _ _ on)) live
  | inr off ↦
      subst (λ (r : Answer × (VtableHook × Tables)). Lives first claims (r.1))
        (sym (if_false _ _ (ap not live.active) ∙ if_false _ _ off))
        (with_enabled-IsLive first claims hook true t (write_slot os hook.slot hook.detour t) live
          (write_slot-Writes os hook.slot hook.detour t))
]

pub toggle_all-IsLive :
    (first : ℕ → ℕ) (claims : List ℕ) (ts : List Toggle) (s : VtableHook × Tables)
    → Lives first claims s
    → Lives first claims (toggle_all ts s)
unfolding toggle_all
toggle_all-IsLive first claims [] s live = live
toggle_all-IsLive first claims (one ∷ rest) s live =
    toggle_all-IsLive first claims rest (toggled one s)
      (toggled-IsLive first claims one (s.0) (s.1) live)

with_enabled_slot :
    (hook : VtableHook) (on : Bool) (r : Answer × Tables)
    → (((with_enabled hook on r).1).0).slot ≡ hook.slot
unfolding with_enabled
with_enabled_slot hook on (ok done, t) = refl
with_enabled_slot hook on (err e, t) = refl

if_slot :
    (b : Bool) (slot : ℕ) (r q : Answer × (VtableHook × Tables))
    → ((r.1).0).slot ≡ slot
    → ((q.1).0).slot ≡ slot
    → (((if b then r else q).1).0).slot ≡ slot
if_slot true slot r q e f = e
if_slot false slot r q e f = f

toggled_slot : (one : Toggle) (s : VtableHook × Tables) → ((toggled one s).0).slot ≡ (s.0).slot
unfolding toggled enable disable
toggled_slot (Toggle.turn_off os) (hook, t) =
    if_slot hook.enabled hook.slot _ (ok tt, (hook, t)) (with_enabled_slot hook false _) refl
toggled_slot (Toggle.turn_on os) (hook, t) =
    if_slot (not hook.active) hook.slot (err VtableError.inactive, (hook, t)) _ refl
      (if_slot hook.enabled hook.slot (ok tt, (hook, t)) _ refl (with_enabled_slot hook true _))

pub toggle_all_slot :
    (ts : List Toggle) (s : VtableHook × Tables) → ((toggle_all ts s).0).slot ≡ (s.0).slot
unfolding toggle_all
toggle_all_slot [] s = refl
toggle_all_slot (one ∷ rest) s = toggle_all_slot rest (toggled one s) ∙ toggled_slot one s
