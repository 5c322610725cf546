-- ===== src/Inline/Undo.antt =====
-- The inline hooks of src/transaction.rs in a commit that fails: they are disabled, and dropped
-- before they were published.
use neohook.Base.{
  ℕ, ◌+◌, ◌^◌, ◌≡◌, refl, ap, sym, Option, none, some, ltb, ◌&&◌, ◌||◌, arith, ◌∙◌, inl, inr, Bool,
  true, false, List, length, ◌==◌, if◌then◌else◌, if_true, if_false, Bool-cases,
}
use neohook.Patches.{orphan_chained_gateway}
use neohook.Inline.{
  Process, InlineHook, Writable, write_bytes, write_code_bytes, disable, with_enabled, ignoring,
  drop_hook, drop_after, drop_restored, drop_gateway, drop_trampoline, retire, release,
  unregister_managed_gateway,
}
use neohook.Inline.Toggle.{IsWritable, patch_target-ok}
use neohook.Inline.Removal.{perform_unhook-ok}

pub disable-Written :
    (can : Writable) (hook : InlineHook) (p : Process)
    → hook.enabled ≡ true
    → IsWritable can hook.target (length hook.orig_bytes)
    → ((ignoring hook p (disable can hook p)).1).memory
      ≡ write_bytes p.memory hook.target hook.orig_bytes
unfolding disable with_enabled ignoring
disable-Written can hook p on w =
    ap (λ r. ((ignoring hook p r).1).memory)
      (if_true _ _ on
        ∙ ap (with_enabled hook false) (patch_target-ok can hook.target hook.orig_bytes p w))

if_memory :
    (b : Bool) (m : ℕ → ℕ) (p q : Process)
    → p.memory ≡ m
    → q.memory ≡ m
    → (if b then p else q).memory ≡ m
if_memory true m p q e f = e
if_memory false m p q e f = f

drop_gateway_memory : (ptr size : ℕ) (p : Process) → (drop_gateway ptr size p).memory ≡ p.memory
unfolding drop_gateway drop_trampoline retire
drop_gateway_memory ptr size p =
    if_memory ((orphan_chained_gateway ptr size p.chained).0) p.memory _ _ refl
      (if_memory (ptr == 0) p.memory _ _ refl refl)

-- Dropping a hook that was not published writes its bytes back, and changes no other byte.
pub drop_hook-Written :
    (can : Writable) (hook : InlineHook) (p : Process)
    → hook.active ≡ true
    → hook.published ≡ false
    → length hook.orig_bytes ≡ hook.stolen_len
    → IsWritable can hook.target (length hook.orig_bytes)
    → (drop_hook can hook p).memory ≡ write_bytes p.memory hook.target hook.orig_bytes
unfolding drop_hook drop_after drop_restored release unregister_managed_gateway
drop_hook-Written can hook p on unpublished len w =
    ap (λ (q : Process). q.memory)
      (if_true _ _ on ∙ ap (drop_after hook p) (perform_unhook-ok can hook p len w))
    ∙ drop_gateway_memory hook.trampoline_ptr hook.trampoline_size _
    ∙ ap (λ (r : InlineHook × Process). (r.1).memory) (if_false _ _ unpublished)

pub drop_trampoline_memory :
    (ptr size : ℕ) (p : Process) → (drop_trampoline ptr size p).memory ≡ p.memory
unfolding drop_trampoline retire
drop_trampoline_memory ptr size p = if_memory (ptr == 0) p.memory _ _ refl refl

-- A write that succeeds was to a range that can be written, and it wrote all of the bytes.
pub write_code_bytes_made :
    (can : Writable) (memory m : ℕ → ℕ) (target : ℕ) (bytes : List ℕ)
    → write_code_bytes can memory target bytes ≡ some m
    → IsWritable can target (length bytes) × (m ≡ write_bytes memory target bytes)
unfolding write_code_bytes
write_code_bytes_made can memory m target bytes e =
    elim (Bool-cases (target == 0 || length bytes == 0)) [
      | inl null ↦ absurd (none_some (sym (if_true _ _ null) ∙ e))
      | inr there ↦
          elim (Bool-cases (ltb (target + length bytes) (2 ^ 64) && can target (length bytes))) [
            | inr over ↦ absurd (none_some (sym (if_false _ _ there ∙ if_false _ _ over) ∙ e))
            | inl fits ↦ (
              record {
                not_null = ground arith;
                not_empty = ground arith;
                in_space = ground arith;
                pages = second _ _ fits;
              },
              some_same (sym e ∙ if_false _ _ there ∙ if_true _ _ fits),
            )
          ]
    ]
  where
    none_some : {A : Type 0} {a : A} → ◌≡◌ {A = Option A} none (some a) → ⊥
    none_some p = cc

    some_same : {A : Type 0} {a b : A} → ◌≡◌ {A = Option A} (some a) (some b) → a ≡ b
    some_same p = cc

    second : (a b : Bool) → (a && b) ≡ true → b ≡ true
    second true b p = p
    second false b p = cc
