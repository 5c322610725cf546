-- ===== src/Inline/Removal.antt =====
-- `unhook` and `Drop` of an inline hook of src/transaction.rs.
use neohook.Base.{
  ℕ, ◌+◌, ◌≤◌, ◌<◌, ◌≡◌, ◌≢◌, refl, sym, ap, subst, ◌∙◌, ◌⊎◌, inl, inr, Bool, true, false, not,
  none, some, Option, ◌∷◌, length, if_true, if_false, Bool-cases, arith, ◌==◌, ◌||◌, if◌then◌else◌,
}
use neohook.Base.Errors.{DetourError}
use neohook.Base.Maps.{find_key, member, member-erase}
use neohook.Base.Results.{Result, ok}
use neohook.Patches.Tables.{
  starts_at-unregister, HasNone, orphan_cases, find-remove_dependent_other,
}
use neohook.Patches.{
  TargetKind, ChainedGateway, live_patch_starts_at, unregister_live_patch, orphan_chained_gateway,
  remove_gateway_dependent,
}
use neohook.Inline.{
  Process, InlineHook, Writable, write_bytes, written, perform_unhook, unregister_managed_gateway,
  register_managed_gateway, is_managed_gateway, retire, retire_orphan, release_gateway, release,
  drop_trampoline, drop_gateway, drop_restored, drop_hook, unhook_after, unhook,
}
use neohook.Inline.Bytes.{Holds, write_bytes-Holds, write_bytes_outside}
use neohook.Inline.Toggle.{IsWritable, write_code_bytes-some}

zero_test : (a : ℕ) → a ≢ 0 → (a == 0) ≡ false
zero_test a nz = ground arith

pub checks : (a b c : ℕ) → a ≢ 0 → b ≡ c → (a == 0 || not (b == c)) ≡ false
checks a b c nz e = ground arith

pub perform_unhook-ok :
    (can : Writable) (hook : InlineHook) (p : Process)
    → length hook.orig_bytes ≡ hook.stolen_len
    → IsWritable can hook.target (length hook.orig_bytes)
    → perform_unhook can hook p
      ≡ ok (record p { memory = write_bytes p.memory hook.target hook.orig_bytes })
unfolding perform_unhook written
perform_unhook-ok can hook p len w =
    if_false _ _ (checks hook.target (length hook.orig_bytes) hook.stolen_len w.not_null len)
    ∙ ap (written p) (write_code_bytes-some can p.memory hook.target hook.orig_bytes w)

-- The trampoline is left to the hooks chained on it, or it is retired.
drop_gateway_cases :
    (ptr size : ℕ) (p : Process)
    → ptr ≢ 0
    → let orphaned = orphan_chained_gateway ptr size p.chained in
      ((orphaned.0 ≡ true) × (drop_gateway ptr size p ≡ record p { chained = orphaned.1 }))
      ⊎ ((orphaned.0 ≡ false)
          × (drop_gateway ptr size p ≡ retire ptr size (record p { chained = orphaned.1 })))
unfolding drop_gateway drop_trampoline
drop_gateway_cases ptr size p nz =
    elim (Bool-cases ((orphan_chained_gateway ptr size p.chained).0)) [
      | inl taken ↦ inl (taken, if_true _ _ taken)
      | inr free ↦ inr (free, if_false _ _ free ∙ if_false _ _ (zero_test ptr nz))
    ]

-- The bytes of memory and the live patches are the same.
abbrev pub SameCode : Process → Process → Type 0
SameCode p q = (p.memory ≡ q.memory) × (p.live ≡ q.live)

retire_orphan-SameCode :
    (orphan : Option (ℕ × ℕ)) (p q : Process) → SameCode p q → SameCode (retire_orphan orphan p) q
unfolding retire_orphan retire
retire_orphan-SameCode none p q same = same
retire_orphan-SameCode (some (ptr, size)) p q same = same

alive-SameCode :
    (alive : Bool) (target : ℕ) (p : Process)
    → SameCode (if alive then register_managed_gateway target p else p) p
unfolding register_managed_gateway
alive-SameCode true target p = (refl, refl)
alive-SameCode false target p = (refl, refl)

retire_orphan_chained :
    (orphan : Option (ℕ × ℕ)) (p : Process) → (retire_orphan orphan p).chained ≡ p.chained
unfolding retire_orphan retire
retire_orphan_chained none p = refl
retire_orphan_chained (some (ptr, size)) p = refl

alive_chained :
    (alive : Bool) (target : ℕ) (p : Process)
    → (if alive then register_managed_gateway target p else p).chained ≡ p.chained
unfolding register_managed_gateway
alive_chained true target p = refl
alive_chained false target p = refl

pub release_gateway-SameCode :
    (kind : TargetKind) (target : ℕ) (p : Process) → SameCode (release_gateway kind target p) p
unfolding release_gateway
release_gateway-SameCode TargetKind.normal target p = (refl, refl)
release_gateway-SameCode TargetKind.managed_gateway target p =
    let dropped = remove_gateway_dependent target p.chained in
    retire_orphan-SameCode dropped.0.1 _ p
      (alive-SameCode dropped.0.0 target (record p { chained = dropped.1 }))

pub drop_gateway-SameCode :
    (ptr size : ℕ) (p : Process)
    → ptr ≢ 0
    → SameCode (drop_gateway ptr size p) p × ((drop_gateway ptr size p).managed ≡ p.managed)
unfolding retire
drop_gateway-SameCode ptr size p nz = elim (drop_gateway_cases ptr size p nz) [
  | inl (taken, e) ↦ (
    (ap (λ (q : Process). q.memory) e, ap (λ (q : Process). q.live) e),
    ap (λ (q : Process). q.managed) e,
  )
  | inr (free, e) ↦ (
    (ap (λ (q : Process). q.memory) e, ap (λ (q : Process). q.live) e),
    ap (λ (q : Process). q.managed) e,
  )
]

-- The process of `unhook` up to the drop of the consumed hook.
abbrev pub released : InlineHook → Process → Process
released hook p = unregister_managed_gateway hook.trampoline_ptr (
    unregister_managed_gateway hook.trampoline_ptr (
      release_gateway hook.target_kind hook.target (record p {
        memory = write_bytes p.memory hook.target hook.orig_bytes;
        live = unregister_live_patch hook.target p.live;
      })))

unhook_ok :
    (can retry : Writable) (hook : InlineHook) (p : Process)
    → hook.active ≡ true
    → hook.published ≡ true
    → length hook.orig_bytes ≡ hook.stolen_len
    → IsWritable can hook.target (length hook.orig_bytes)
    → unhook can retry hook p
      ≡ (ok tt, drop_gateway hook.trampoline_ptr hook.trampoline_size (released hook p))
unfolding unhook unhook_after drop_hook drop_restored release
unhook_ok can retry hook p on out len w =
    if_true _ _ on
    ∙ ap (unhook_after retry hook p) (perform_unhook-ok can hook p len w)
    ∙ rw out refl

release_gateway-find :
    (kind : TargetKind) (target ptr : ℕ) (p : Process)
    → ptr ≢ target
    → find_key ptr (release_gateway kind target p).chained ≡ find_key ptr p.chained
unfolding release_gateway
release_gateway-find TargetKind.normal target ptr p apart = refl
release_gateway-find TargetKind.managed_gateway target ptr p apart =
    let dropped = remove_gateway_dependent target p.chained in
    ap (find_key ptr) (
      retire_orphan_chained dropped.0.1 (
        if dropped.0.0
        then register_managed_gateway target (record p { chained = dropped.1 })
        else record p { chained = dropped.1 })
      ∙ alive_chained dropped.0.0 target (record p { chained = dropped.1 }))
    ∙ find-remove_dependent_other target ptr p.chained apart

-- The trampoline is left to the hooks that are chained on it, or retired where there are none.
abbrev pub GivenUp : InlineHook → Process → Process → Type 0
GivenUp hook p after =
    let trampoline : ℕ × ℕ = (hook.trampoline_ptr, hook.trampoline_size) in
    ((entry : ChainedGateway) × (find_key hook.trampoline_ptr p.chained ≡ some entry)
      × (0 < entry.dependents)
      × (find_key hook.trampoline_ptr after.chained
          ≡ some (record { dependents = entry.dependents; orphan = some trampoline }))
      × (after.retired ≡ (released hook p).retired))
    ⊎ (HasNone (find_key hook.trampoline_ptr p.chained)
        × (after.retired ≡ trampoline ∷ (released hook p).retired))

drop_gateway-GivenUp :
    (hook : InlineHook) (p : Process)
    → hook.trampoline_ptr ≢ 0
    → hook.trampoline_ptr ≢ hook.target
    → GivenUp hook p (drop_gateway hook.trampoline_ptr hook.trampoline_size (released hook p))
unfolding unregister_managed_gateway retire
drop_gateway-GivenUp hook p nz apart =
    let ptr = hook.trampoline_ptr in
    let before = released hook p in
    let same =
      release_gateway-find hook.target_kind hook.target ptr
        (record p {
          memory = write_bytes p.memory hook.target hook.orig_bytes;
          live = unregister_live_patch hook.target p.live;
        })
        apart in
    elim (drop_gateway_cases ptr hook.trampoline_size before nz) [
      | inl (taken, e) ↦ elim (orphan_cases ptr hook.trampoline_size before.chained) [
        | inl (entry, found, many, answer, left) ↦ inl (
          entry,
          sym same ∙ found,
          many,
          ap (λ (q : Process). find_key ptr q.chained) e ∙ left,
          ap (λ (q : Process). q.retired) e,
        )
        | inr (nobody, answer) ↦ absurd (cc (taken, answer))
      ]
      | inr (free, e) ↦ elim (orphan_cases ptr hook.trampoline_size before.chained) [
        | inl (entry, found, many, answer, left) ↦ absurd (cc (free, answer))
        | inr (nobody, answer) ↦
            inr (subst (λ o. HasNone o) same nobody, ap (λ (q : Process). q.retired) e)
      ]
    ]

-- Unhooking an active, published hook whose target is writable, with as many original as stolen bytes
-- and a trampoline that is not null and not at the target, succeeds: the original bytes stand at the
-- target, a byte `y` outside them is unchanged, no live patch starts at the target, the trampoline is
-- no managed gateway any more, and what was retired up to the release of the target's own gateway stays
-- so. Where hooks are chained on the trampoline, as many are afterwards, they own it and it is not
-- retired; where there are none, it is retired.
pub unhook_restores :
    (can retry : Writable) (hook : InlineHook) (p : Process) (y : ℕ)
    → hook.active ≡ true
    → hook.published ≡ true
    → hook.trampoline_ptr ≢ 0
    → hook.trampoline_ptr ≢ hook.target
    → length hook.orig_bytes ≡ hook.stolen_len
    → IsWritable can hook.target (length hook.orig_bytes)
    → (y < hook.target) ⊎ (hook.target + length hook.orig_bytes ≤ y)
    → let (answer, after) = unhook can retry hook p in
      (answer ≡ ok tt)
      × Holds after.memory hook.target hook.orig_bytes
      × (after.memory y ≡ p.memory y)
      × (live_patch_starts_at after.live hook.target ≡ false)
      × (is_managed_gateway hook.trampoline_ptr after ≡ false)
      × GivenUp hook p after
unfolding is_managed_gateway unregister_managed_gateway
unhook_restores can retry hook p y on out nz elsewhere len w apart =
    let done = unhook_ok can retry hook p on out len w in
    let ptr = hook.trampoline_ptr in
    let bare = record p {
      memory = write_bytes p.memory hook.target hook.orig_bytes;
      live = unregister_live_patch hook.target p.live;
    } in
    let (kept_memory, kept_live) = release_gateway-SameCode hook.target_kind hook.target bare in
    let ((memory, live), managed) =
      drop_gateway-SameCode ptr hook.trampoline_size (released hook p) nz in
    let all_memory =
      ap (λ (r : Result DetourError (Unit {0}) × Process). r.1.memory) done
      ∙ memory
      ∙ kept_memory in
    let all_live =
      ap (λ (r : Result DetourError (Unit {0}) × Process). r.1.live) done ∙ live ∙ kept_live in
    (
      ap (λ (r : Result DetourError (Unit {0}) × Process). r.0) done,
      subst (λ m. Holds m hook.target hook.orig_bytes) (sym all_memory)
          (write_bytes-Holds p.memory hook.target hook.orig_bytes),
      ap (λ m. m y) all_memory ∙ write_bytes_outside p.memory hook.target hook.orig_bytes y apart,
      ap (λ l. live_patch_starts_at l hook.target) all_live
          ∙ starts_at-unregister hook.target p.live,
      ap (λ (r : Result DetourError (Unit {0}) × Process). member ptr r.1.managed) done
          ∙ ap (member ptr) managed
          ∙ member-erase ptr _,
      subst (λ (r : Result DetourError (Unit {0}) × Process). GivenUp hook p r.1) (sym done)
          (drop_gateway-GivenUp hook p nz elsewhere),
    )
