-- ===== src/Inline/Toggle.antt =====
-- `disable` and `enable` of an inline hook of src/transaction.rs.
use neohook.Base.{
  ℕ, ◌+◌, ◌^◌, ◌≤◌, ◌<◌, ◌≡◌, ◌≢◌, sym, ap, subst, ◌∙◌, ◌⊎◌, Bool, true, false, some, List, length,
  if_true, if_false, arith, ◌==◌, ltb, ◌&&◌, ◌||◌,
}
use neohook.Base.Results.{ok}
use neohook.Inline.{
  Process, InlineHook, Writable, write_bytes, write_code_bytes, written, patch_target, with_enabled,
  disable, enable,
}
use neohook.Inline.Bytes.{Holds, write_bytes-Holds, write_bytes_outside, write_bytes_back}

-- A range that the process may write.
pub record IsWritable (can : Writable) (target len : ℕ) : Type 0 where
  pub not_null : target ≢ 0
  pub not_empty : 0 < len
  pub in_space : target + len < 2 ^ 64
  pub pages : can target len ≡ true

nonzero_test : (a b : ℕ) → a ≢ 0 → 0 < b → (a == 0 || b == 0) ≡ false
nonzero_test a b ha hb = ground arith

fits_test :
    (a b : ℕ) (pages : Bool)
    → a + b < 2 ^ 64
    → pages ≡ true
    → (ltb (a + b) (2 ^ 64) && pages) ≡ true
fits_test a b pages fits can = ground arith

pub write_code_bytes-some :
    (can : Writable) (memory : ℕ → ℕ) (target : ℕ) (bytes : List ℕ)
    → IsWritable can target (length bytes)
    → write_code_bytes can memory target bytes ≡ some (write_bytes memory target bytes)
unfolding write_code_bytes
write_code_bytes-some can memory target bytes w =
    let start = w.not_null in
    let len = w.not_empty in
    let fits = w.in_space in
    let pages = w.pages in
    if_false _ _ (nonzero_test target (length bytes) start len)
    ∙ if_true _ _ (fits_test target (length bytes) (can target (length bytes)) fits pages)

pub patch_target-ok :
    (can : Writable) (target : ℕ) (bytes : List ℕ) (p : Process)
    → IsWritable can target (length bytes)
    → patch_target can target bytes p ≡ ok (record p { memory = write_bytes p.memory target bytes })
unfolding patch_target written
patch_target-ok can target bytes p w =
    if_false _ _ (nonzero_test target (length bytes) w.not_null w.not_empty)
    ∙ ap (written p) (write_code_bytes-some can p.memory target bytes w)

-- An enabled hook of which the patch stands at a writable target, with as many original as patched
-- bytes, can be disabled and enabled again: in between the original bytes stand there and a
-- byte `y` outside them is unchanged, and after it the hook and every byte of memory are as at first.
pub enable-disable :
    (can : Writable) (hook : InlineHook) (p : Process) (x y : ℕ)
    → hook.enabled ≡ true
    → hook.active ≡ true
    → length hook.orig_bytes ≡ length hook.patch_bytes
    → Holds p.memory hook.target hook.patch_bytes
    → IsWritable can hook.target (length hook.patch_bytes)
    → (y < hook.target) ⊎ (hook.target + length hook.orig_bytes ≤ y)
    → (off : Process) × (on : Process) × (disable can hook p
        ≡ ok (record hook { enabled = false }, off))
      × Holds off.memory hook.target hook.orig_bytes
      × (off.memory y ≡ p.memory y)
      × (enable can (record hook { enabled = false }) off ≡ ok (hook, on))
      × (on.memory x ≡ p.memory x)
unfolding disable enable with_enabled
enable-disable can hook p x y is_on active len held w out =
    let off : Process = record p { memory = write_bytes p.memory hook.target hook.orig_bytes } in
    let on : Process = record off {
      memory = write_bytes off.memory hook.target hook.patch_bytes;
    } in
    let orig = subst (λ n. IsWritable can hook.target n) (sym len) w in
    (
      off,
      on,
      if_true _ _ is_on
          ∙ ap (λ r. with_enabled hook false r)
              (patch_target-ok can hook.target hook.orig_bytes p orig),
      write_bytes-Holds p.memory hook.target hook.orig_bytes,
      write_bytes_outside p.memory hook.target hook.orig_bytes y out,
      if_true _ _ active
          ∙ ap (λ r. with_enabled (record hook { enabled = false }) true r)
              (patch_target-ok can hook.target hook.patch_bytes off w)
          ∙ ap (λ b. ok (record hook { enabled = b }, on)) (sym is_on),
      write_bytes_back p.memory hook.target hook.patch_bytes hook.orig_bytes x held len,
    )
