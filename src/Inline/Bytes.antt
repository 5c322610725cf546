-- ===== src/Inline/Bytes.antt =====
-- Writes of bytes to memory, as src/mem.rs makes them.
use neohook.Base.{
  ℕ, ◌+◌, ◌≤◌, ◌<◌, ◌≡◌, refl, ap, sym, ◌∙◌, ◌⊎◌, inl, inr, List, [], ◌∷◌, length, Bool-cases, ◌==◌,
  if_true, if_false, arith,
}
use neohook.Inline.{write_bytes}

-- The bytes stand in memory from `start` on.
abbrev pub Holds : (ℕ → ℕ) → ℕ → List ℕ → Type 0
Holds memory start [] = Unit
Holds memory start (b ∷ bytes) = (memory start ≡ b) × Holds memory (start + 1) bytes

pub write_bytes_below :
    (memory : ℕ → ℕ) (start : ℕ) (bytes : List ℕ) (x : ℕ)
    → x < start
    → write_bytes memory start bytes x ≡ memory x
write_bytes_below memory start [] x lt = refl
write_bytes_below memory start (b ∷ bytes) x lt =
    ground (arith, write_bytes_below memory (start + 1) bytes x (omega arith))

-- Outside the range, memory is left as it was.
pub write_bytes_outside :
    (memory : ℕ → ℕ) (start : ℕ) (bytes : List ℕ) (x : ℕ)
    → (x < start) ⊎ (start + length bytes ≤ x)
    → write_bytes memory start bytes x ≡ memory x
write_bytes_outside memory start bytes x (inl lt) = write_bytes_below memory start bytes x lt
write_bytes_outside memory start [] x (inr le) = refl
write_bytes_outside memory start (b ∷ bytes) x (inr le) =
    ground (arith, write_bytes_outside memory (start + 1) bytes x (inr (omega arith)))

Holds-same :
    (m n : ℕ → ℕ) (start : ℕ) (bytes : List ℕ)
    → ((x : ℕ) → start ≤ x → m x ≡ n x)
    → Holds n start bytes
    → Holds m start bytes
Holds-same m n start [] same h = tt
Holds-same m n start (b ∷ bytes) same (e, h) = (
  same start (omega arith) ∙ e,
  Holds-same m n (start + 1) bytes (λ x le. same x (omega arith)) h,
)

pub write_bytes-Holds :
    (memory : ℕ → ℕ) (start : ℕ) (bytes : List ℕ)
    → Holds (write_bytes memory start bytes) start bytes
write_bytes-Holds memory start [] = tt
write_bytes-Holds memory start (b ∷ bytes) = (
  ground arith,
  Holds-same (write_bytes memory start (b ∷ bytes)) (write_bytes memory (start + 1) bytes)
      (start + 1) bytes (λ x le. ground arith) (write_bytes-Holds memory (start + 1) bytes),
)

outside_split : (x start : ℕ) → (x < start) ⊎ (start ≤ x)
outside_split x start = ground arith

pub write_bytes_over :
    (m memory : ℕ → ℕ) (start : ℕ) (old : List ℕ) (x : ℕ)
    → Holds memory start old
    → ((x < start) ⊎ (start + length old ≤ x) → m x ≡ memory x)
    → write_bytes m start old x ≡ memory x
write_bytes_over m memory start [] x h same = elim (outside_split x start) [
  | inl lt ↦ same (inl lt)
  | inr le ↦ same (inr (omega arith))
]
write_bytes_over m memory start (b ∷ old) x (e, h) same = elim (Bool-cases (x == start)) [
  | inl here ↦ if_true _ _ here ∙ sym e ∙ ap memory (ground arith)
  | inr apart ↦
      if_false _ _ apart
      ∙ write_bytes_over m memory (start + 1) old x h (λ out. elim out [
        | inl lt ↦ same (inl (ground arith))
        | inr le ↦ same (inr (omega arith))
      ])
]

-- Writing what stands in memory over bytes written there restores it.
pub write_bytes_back :
    (memory : ℕ → ℕ) (start : ℕ) (old new : List ℕ) (x : ℕ)
    → Holds memory start old
    → length new ≡ length old
    → write_bytes (write_bytes memory start new) start old x ≡ memory x
write_bytes_back memory start old new x h len =
    write_bytes_over (write_bytes memory start new) memory start old x h (λ out.
      write_bytes_outside memory start new x
        (elim out [ inl lt ↦ inl lt | inr le ↦ inr (omega arith) ]))
