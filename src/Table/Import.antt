-- ===== src/Table/Import.antt =====
-- The import hooks of src/transaction.rs.
use neohook.Base.{
  ℕ, ◌≡◌, ◌≢◌, refl, sym, ap, subst, ◌∙◌, ◌⊎◌, inl, inr, true, false, Bool-cases, if_true, if_false,
  arith,
}
use neohook.Base.Errors.{iat}
use neohook.Base.Maps.{member}
use neohook.Base.Results.{ok, err}
use neohook.Patches.Tables.{member-release}
use neohook.Table.{
  Tables, Writable, update, IatHook, write_entry, iat_with_enabled, iat_disable, iat_perform_unhook,
  release_slot, iat_drop_after, iat_drop, iat_unhook_after, iat_unhook, iat_restored,
  iat_finalize_after, iat_detach_finalize,
}

pub update_here : (f : ℕ → ℕ) (at value : ℕ) → update f at value at ≡ value
update_here f at value = ground arith

pub update_apart : (f : ℕ → ℕ) (at value x : ℕ) → x ≢ at → update f at value x ≡ f x
update_apart f at value x d = ground arith

-- The tables once the hook's entry and slot are given back.
abbrev given_back : IatHook → Tables → Tables
given_back hook t =
    release_slot hook.slot (record t { entry = update t.entry hook.slot hook.original_ptr })

module _ (can retry : Writable) (hook : IatHook) (t : Tables) (on : hook.active ≡ true)
    (held : hook.claimed ≡ true) where
  unhook_written : can hook.slot ≡ true → iat_unhook can retry hook t ≡ (ok tt, given_back hook t)
  unfolding iat_unhook iat_unhook_after iat_perform_unhook write_entry iat_drop
  unhook_written yes_can = rw (on, yes_can, held) refl

  unhook_dropped :
      can hook.slot ≡ false
      → iat_unhook can retry hook t
        ≡ (err iat, iat_drop_after hook t (iat_perform_unhook retry hook t))
  unfolding iat_unhook iat_unhook_after iat_perform_unhook write_entry iat_drop
  unhook_dropped no_can =
      if_true _ _ on
      ∙ ap (iat_unhook_after retry hook t) (if_false _ _ no_can)
      ∙ ap (λ s. (err iat, s)) (if_true _ _ held ∙ if_true _ _ on)

  unhook_retried :
      can hook.slot ≡ false
      → retry hook.slot ≡ true
      → iat_unhook can retry hook t ≡ (err iat, given_back hook t)
  unfolding iat_perform_unhook write_entry iat_drop_after
  unhook_retried no_can again =
      unhook_dropped no_can ∙ ap (λ r. (err iat, iat_drop_after hook t r)) (if_true _ _ again)

  unhook_refused :
      can hook.slot ≡ false → retry hook.slot ≡ false → iat_unhook can retry hook t ≡ (err iat, t)
  unfolding iat_perform_unhook write_entry iat_drop_after
  unhook_refused no_can no_retry =
      unhook_dropped no_can ∙ ap (λ r. (err iat, iat_drop_after hook t r)) (if_false _ _ no_retry)

module _ (can : Writable) (hook : IatHook) (t : Tables) where
  -- The hook and the tables after a detach that could not restore the entry.
  detach_refused :
      hook.enabled ≡ true
      → can hook.slot ≡ false
      → iat_detach_finalize can hook t ≡ (record hook { active = false; enabled = false }, t)
  unfolding iat_detach_finalize iat_finalize_after iat_restored iat_disable iat_with_enabled
      write_entry
  detach_refused on no_can = ap (iat_finalize_after hook) (
      if_true _ _ on
      ∙ ap (iat_restored t)
          (if_true _ _ on ∙ ap (iat_with_enabled hook false) (if_false _ _ no_can)))

-- The entry at the slot is the original one, the one at `x` is as in `t`, and the slot is free.
abbrev pub Restored : IatHook → ℕ → Tables → Tables → Type 0
Restored hook x t after =
    (after.entry hook.slot ≡ hook.original_ptr)
    × (after.entry x ≡ t.entry x)
    × (member hook.slot after.claimed_slots ≡ false)

given_back-Restored :
    (hook : IatHook) (t : Tables) (x : ℕ) → x ≢ hook.slot → Restored hook x t (given_back hook t)
unfolding release_slot
given_back-Restored hook t x apart = (
  update_here t.entry hook.slot hook.original_ptr,
  update_apart t.entry hook.slot hook.original_ptr x apart,
  member-release hook.slot t.claimed_slots,
)

-- Unhooking an active import hook that holds its slot succeeds when the entry can be written, and
-- fails when it cannot. After a success, and after a failure where the entry can be written when the
-- hook is dropped, the entry is the original pointer, the entry at another slot `x` is as before and
-- the slot is free. When it cannot be written then either, nothing is changed and the slot stays
-- claimed as it was.
pub iat_unhook_restores :
    (can retry : Writable) (hook : IatHook) (t : Tables) (x : ℕ)
    → hook.active ≡ true
    → hook.claimed ≡ true
    → x ≢ hook.slot
    → let (answer, after) = iat_unhook can retry hook t in
      ((can hook.slot ≡ true) × (answer ≡ ok tt) × Restored hook x t after)
      ⊎ ((can hook.slot ≡ false)
          × (retry hook.slot ≡ true)
          × (answer ≡ err iat)
          × Restored hook x t after)
      ⊎ ((can hook.slot ≡ false) × (retry hook.slot ≡ false) × (answer ≡ err iat) × (after ≡ t))
iat_unhook_restores can retry hook t x on held apart =
    let back : (a : Tables) → given_back hook t ≡ a → Restored hook x t a =
      λ a e. subst (Restored hook x t) e (given_back-Restored hook t x apart) in
    elim (Bool-cases (can hook.slot)) [
      | inl yes_can ↦
          let done = unhook_written can retry hook t on held yes_can in
          inl (yes_can, ap (λ r. r.0) done, back _ (sym (ap (λ r. r.1) done)))
      | inr no_can ↦ inr (elim (Bool-cases (retry hook.slot)) [
        | inl again ↦
            let done = unhook_retried can retry hook t on held no_can again in
            inl (no_can, again, ap (λ r. r.0) done, back _ (sym (ap (λ r. r.1) done)))
        | inr never ↦
            let done = unhook_refused can retry hook t on held no_can never in
            inr (no_can, never, ap (λ r. r.0) done, ap (λ r. r.1) done)
      ])
    ]

-- When the entry of an enabled import hook that holds its slot cannot be written, detaching the hook
-- and then dropping it leaves the entry as it is and frees the slot all the same.
pub iat_detach_frees :
    (can : Writable) (hook : IatHook) (t : Tables)
    → hook.enabled ≡ true
    → hook.claimed ≡ true
    → can hook.slot ≡ false
    → let (detached, after) = iat_detach_finalize can hook t in
      ((iat_drop can detached after).entry hook.slot ≡ t.entry hook.slot)
      × (member hook.slot (iat_drop can detached after).claimed_slots ≡ false)
unfolding iat_drop release_slot
iat_detach_frees can hook t on held no_can =
    let done = detach_refused can hook t on no_can in
    let dropped = ap (λ (r : IatHook × Tables). iat_drop can r.0 r.1) done ∙ if_true _ _ held in
    (
      ap (λ (r : Tables). r.entry hook.slot) dropped,
      ap (λ (r : Tables). member hook.slot r.claimed_slots) dropped
          ∙ member-release hook.slot t.claimed_slots,
    )
