-- ===== src/Patches/Jump.antt =====
-- The jump of `inline_patch_bytes` of src/transaction.rs, decoded.
use neohook.Base.{
  ℕ, zero, suc, ◌+◌, ◌-◌, ◌%◌, ◌^◌, ◌≤◌, ◌<◌, ◌≡◌, refl, ◌⊎◌, inl, inr, ◌&&◌, Option, none, some,
  List, [], ◌∷◌, ◌++◌, length, length-append, take, drop, ◌==◌, ltb, Bool-cases, ap, ◌∙◌,
  if◌then◌else◌, arith,
}
use neohook.Base.Words.{sign_extend, wrap64}
use neohook.Base.Bytes.{from_le_bytes, from-to_le_bytes}
use neohook.Base.Results.{ok, err}
use neohook.Base.Errors.{invalid_parameter}
use neohook.Patches.{InlineData, JumpType, jump_offset, patch_buffer, nops, inline_patch_bytes}

-- Where the processor continues when it runs the bytes at `start`: `jmp rel32`, or a `jmp` through the
-- eight bytes that follow it.
pub landing : ℕ → List ℕ → Option ℕ
landing start [] = none
landing start (op ∷ rest) =
    if op == 0xe9
    then some (wrap64 (start + 5 + sign_extend 32 (from_le_bytes (take 4 rest))))
    else if op == 0xff && from_le_bytes (take 5 rest) == 0x25
    then some (from_le_bytes (take 8 (drop 5 rest)))
    else none

-- The operand of the jump can express the way from `start` to `dest`.
abbrev pub Reaches : JumpType → ℕ → ℕ → Type 0
Reaches JumpType.relative5 start dest =
    (jump_offset start dest < 2 ^ 31) ⊎ (2 ^ 64 - 2 ^ 31 ≤ jump_offset start dest)
Reaches JumpType.absolute14 start dest = Unit

pub jump_len : JumpType → ℕ
jump_len JumpType.relative5 = 5
jump_len JumpType.absolute14 = 14

offset_returns :
    (start dest : ℕ)
    → start < 2 ^ 64
    → dest < 2 ^ 64
    → (jump_offset start dest < 2 ^ 31) ⊎ (2 ^ 64 - 2 ^ 31 ≤ jump_offset start dest)
    → wrap64 (start + 5 + sign_extend 32 (jump_offset start dest % 2 ^ 32)) ≡ dest
unfolding jump_offset
offset_returns start dest hs hd (inl near) = ground arith
offset_returns start dest hs hd (inr near) = ground arith

length-nops : (n : ℕ) → length (nops n) ≡ n
unfolding nops
length-nops zero = refl
length-nops (suc n) = omega (arith, length-nops n)

length-patch_buffer :
    (j : JumpType) (start dest : ℕ) → length (patch_buffer j start dest) ≡ jump_len j
unfolding patch_buffer jump_len
length-patch_buffer JumpType.relative5 start dest = refl
length-patch_buffer JumpType.absolute14 start dest = refl

buffer_lands :
    (j : JumpType) (start dest : ℕ) (rest : List ℕ)
    → start < 2 ^ 64
    → dest < 2 ^ 64
    → Reaches j start dest
    → landing start (patch_buffer j start dest ++ rest) ≡ some dest
unfolding patch_buffer landing
buffer_lands JumpType.relative5 start dest rest hs hd near =
    rw (from-to_le_bytes 4 (jump_offset start dest % 2 ^ 32) (omega arith))
      (ap some (offset_returns start dest hs hd near))
buffer_lands JumpType.absolute14 start dest rest hs hd near = ap some (from-to_le_bytes 8 dest hd)

-- The bytes of an inline patch fill the stolen bytes exactly, and running them at the target continues
-- in the detour; they are refused exactly when the stolen bytes are too few for the jump. The
-- addresses are 64-bit words, and a relative jump needs an offset in the range of an i32.
pub inline_patch_lands :
    (d : InlineData)
    → d.target < 2 ^ 64
    → d.detour < 2 ^ 64
    → Reaches d.jump_type d.target d.detour
    → ((inline_patch_bytes d ≡ err invalid_parameter) × (d.stolen_len < jump_len d.jump_type))
      ⊎ ((bytes : List ℕ) × (inline_patch_bytes d ≡ ok bytes)
          × (length bytes ≡ d.stolen_len)
          × (jump_len d.jump_type ≤ d.stolen_len)
          × (landing d.target bytes ≡ some d.detour))
unfolding inline_patch_bytes
inline_patch_lands d ht hd near =
    let patch = patch_buffer d.jump_type d.target d.detour in
    let len = length-patch_buffer d.jump_type d.target d.detour in
    let lands =
      buffer_lands d.jump_type d.target d.detour (nops (d.stolen_len - length patch)) ht hd near in
    let total =
      length-append patch (nops (d.stolen_len - length patch))
      ∙ ap (λ n. length patch + n) (length-nops (d.stolen_len - length patch)) in
    elim (Bool-cases (ltb d.stolen_len (length patch))) [
      | inl short ↦ inl (ground (arith, short, len))
      | inr enough ↦ inr (
        patch ++ nops (d.stolen_len - length patch),
        rw enough refl,
        ground (arith, total, enough),
        ground (arith, len, enough),
        lands,
      )
    ]
