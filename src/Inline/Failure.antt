-- ===== src/Inline/Failure.antt =====
-- `unhook` of an inline hook of src/transaction.rs when its write fails: `Drop` tries again.
use neohook.Base.{
  ℕ, ◌+◌, ◌^◌, ◌≤◌, ◌<◌, ◌≡◌, ◌≢◌, sym, ap, subst, ◌∙◌, ◌⊎◌, inl, inr, Bool, true, false, none,
  List, length, if_true, if_false, Bool-cases, arith, ◌==◌, ◌||◌, ◌&&◌, ltb,
}
use neohook.Base.Errors.{DetourError, relocation_failed}
use neohook.Base.Maps.{member, member-erase}
use neohook.Base.Results.{Result, err}
use neohook.Patches.{live_patch_starts_at, unregister_live_patch}
use neohook.Patches.Tables.{starts_at-unregister}
use neohook.Inline.{
  Process, InlineHook, Writable, write_bytes, write_code_bytes, written, perform_unhook,
  unregister_managed_gateway, is_managed_gateway, release_gateway, release, drop_gateway,
  drop_restored, drop_after, drop_hook, unhook_after, unhook,
}
use neohook.Inline.Bytes.{Holds, write_bytes-Holds, write_bytes_outside}
use neohook.Inline.Toggle.{IsWritable}
use neohook.Inline.Removal.{
  checks, perform_unhook-ok, release_gateway-SameCode, drop_gateway-SameCode,
}

and_false : (a b : Bool) → b ≡ false → (a && b) ≡ false
and_false a b e = ground arith

write_code_bytes-none :
    (can : Writable) (memory : ℕ → ℕ) (target : ℕ) (bytes : List ℕ)
    → can target (length bytes) ≡ false
    → write_code_bytes can memory target bytes ≡ none
unfolding write_code_bytes
write_code_bytes-none can memory target bytes no_can =
    elim (Bool-cases (target == 0 || length bytes == 0)) [
      | inl null ↦ if_true _ _ null
      | inr there ↦
          if_false _ _ there
          ∙ if_false _ _ (and_false (ltb (target + length bytes) (2 ^ 64)) _ no_can)
    ]

perform_unhook-err :
    (can : Writable) (hook : InlineHook) (p : Process)
    → hook.target ≢ 0
    → length hook.orig_bytes ≡ hook.stolen_len
    → can hook.target (length hook.orig_bytes) ≡ false
    → perform_unhook can hook p ≡ err relocation_failed
unfolding perform_unhook written
perform_unhook-err can hook p nz len no_can =
    if_false _ _ (checks hook.target (length hook.orig_bytes) hook.stolen_len nz len)
    ∙ ap (written p) (write_code_bytes-none can p.memory hook.target hook.orig_bytes no_can)

-- The original bytes stand at the target, the byte at `y` is as before, no live patch starts at the
-- target, and the trampoline is no managed gateway.
abbrev pub CodeBack : InlineHook → ℕ → Process → Process → Type 0
CodeBack hook y p after =
    Holds after.memory hook.target hook.orig_bytes
    × (after.memory y ≡ p.memory y)
    × (live_patch_starts_at after.live hook.target ≡ false)
    × (is_managed_gateway hook.trampoline_ptr after ≡ false)

abbrev bare : InlineHook → Process → Process
bare hook p = record p {
  memory = write_bytes p.memory hook.target hook.orig_bytes;
  live = unregister_live_patch hook.target p.live;
}

dropped-CodeBack :
    (hook : InlineHook) (p : Process) (y : ℕ)
    → hook.trampoline_ptr ≢ 0
    → (y < hook.target) ⊎ (hook.target + length hook.orig_bytes ≤ y)
    → CodeBack hook y p (
        drop_gateway hook.trampoline_ptr hook.trampoline_size (
          unregister_managed_gateway hook.trampoline_ptr
            (release_gateway hook.target_kind hook.target (bare hook p))))
unfolding is_managed_gateway unregister_managed_gateway
dropped-CodeBack hook p y nz apart =
    let ptr = hook.trampoline_ptr in
    let left = release_gateway hook.target_kind hook.target (bare hook p) in
    let (kept_memory, kept_live) =
      release_gateway-SameCode hook.target_kind hook.target (bare hook p) in
    let ((memory, live), managed) =
      drop_gateway-SameCode ptr hook.trampoline_size (unregister_managed_gateway ptr left) nz in
    (
      subst (λ m. Holds m hook.target hook.orig_bytes) (sym (memory ∙ kept_memory))
          (write_bytes-Holds p.memory hook.target hook.orig_bytes),
      ap (λ m. m y) (memory ∙ kept_memory)
          ∙ write_bytes_outside p.memory hook.target hook.orig_bytes y apart,
      ap (λ l. live_patch_starts_at l hook.target) (live ∙ kept_live)
          ∙ starts_at-unregister hook.target p.live,
      ap (member ptr) managed ∙ member-erase ptr _,
    )

drop_hook-CodeBack :
    (retry : Writable) (hook : InlineHook) (p : Process) (y : ℕ)
    → hook.active ≡ true
    → hook.published ≡ true
    → hook.trampoline_ptr ≢ 0
    → length hook.orig_bytes ≡ hook.stolen_len
    → IsWritable retry hook.target (length hook.orig_bytes)
    → (y < hook.target) ⊎ (hook.target + length hook.orig_bytes ≤ y)
    → CodeBack hook y p (drop_hook retry hook p)
unfolding drop_hook drop_after drop_restored release
drop_hook-CodeBack retry hook p y on out nz len w apart =
    let restored = record p { memory = write_bytes p.memory hook.target hook.orig_bytes } in
    let gateway : InlineHook × Process → Process = λ r.
      drop_gateway hook.trampoline_ptr hook.trampoline_size
        (unregister_managed_gateway hook.trampoline_ptr r.1) in
    subst (CodeBack hook y p)
      (sym (
        if_true _ _ on
        ∙ ap (drop_after hook p) (perform_unhook-ok retry hook p len w)
        ∙ ap gateway (if_true _ _ out)))
      (dropped-CodeBack hook p y nz apart)

-- Unhooking an active, published hook whose target, a range below 2^64, cannot be written fails; the
-- hook has as many original as stolen bytes and a trampoline that is not null. When the target cannot be
-- written at the drop either, nothing is changed: the patch stays registered and the trampoline, which
-- the detour may still call, is not given up. When it then can, the original bytes stand at the target
-- all the same, a byte `y` outside them is unchanged, no live patch starts at the target and the
-- trampoline is no managed gateway any more.
pub unhook_failed :
    (can retry : Writable) (hook : InlineHook) (p : Process) (y : ℕ)
    → hook.active ≡ true
    → hook.published ≡ true
    → hook.trampoline_ptr ≢ 0
    → length hook.orig_bytes ≡ hook.stolen_len
    → hook.target ≢ 0
    → 0 < length hook.orig_bytes
    → hook.target + length hook.orig_bytes < 2 ^ 64
    → can hook.target (length hook.orig_bytes) ≡ false
    → (y < hook.target) ⊎ (hook.target + length hook.orig_bytes ≤ y)
    → let (answer, after) = unhook can retry hook p in
      (answer ≡ err relocation_failed)
      × (((retry hook.target (length hook.orig_bytes) ≡ false) × (after ≡ p))
          ⊎ ((retry hook.target (length hook.orig_bytes) ≡ true) × CodeBack hook y p after))
unfolding unhook unhook_after drop_hook drop_after
unhook_failed can retry hook p y on out nz len target_nz some_bytes in_space no_can apart =
    let done =
      if_true _ _ on
      ∙ ap (unhook_after retry hook p) (perform_unhook-err can hook p target_nz len no_can) in
    let after = ap (λ (r : Result DetourError (Unit {0}) × Process). r.1) done in
    (
      ap (λ (r : Result DetourError (Unit {0}) × Process). r.0) done,
      elim (Bool-cases (retry hook.target (length hook.orig_bytes))) [
        | inr never ↦ inl (
          never,
          after
              ∙ if_true _ _ on
              ∙ ap (drop_after hook p) (perform_unhook-err retry hook p target_nz len never),
        )
        | inl again ↦ inr (
          again,
          subst (CodeBack hook y p) (sym after) (
              drop_hook-CodeBack retry hook p y on out nz len
                (record {
                  not_null = target_nz;
                  not_empty = some_bytes;
                  in_space = in_space;
                  pages = again;
                })
                apart),
        )
      ],
    )
