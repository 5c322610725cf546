-- ===== src/Mem/Copies.antt =====
-- src/mem.rs: copies of bytes, one range after the other.
use neohook.Base.{
  ℕ, zero, suc, ◌+◌, ◌≤◌, ◌≡◌, refl, sym, ap, ◌∙◌, inl, inr, List, [], ◌∷◌, ◌++◌, length, take,
  drop, ◌==◌, if_true, if_false, Bool-cases, arith,
}
use neohook.Inline.{write_bytes}
use neohook.Inline.Bytes.{write_bytes_outside}
use neohook.Mem.{read_bytes}

suc_add : (k len : ℕ) → suc k + len ≡ suc (k + len)
suc_add k len = omega arith

take_nil : (n : ℕ) → take {A = ℕ} n [] ≡ []
take_nil zero = refl
take_nil (suc n) = refl

pub take-add : (k len : ℕ) (src : List ℕ) → take (k + len) src ≡ take k src ++ take len (drop k src)
take-add zero len src = ap (λ n. take n src) (omega arith)
take-add (suc k) len [] = ap (λ n. take n []) (suc_add k len) ∙ sym (take_nil len)
take-add (suc k) len (b ∷ src) =
    ap (λ n. take n (b ∷ src)) (suc_add k len) ∙ ap (λ (t : List ℕ). b ∷ t) (take-add k len src)

pub length-take : (k : ℕ) (src : List ℕ) → k ≤ length src → length (take k src) ≡ k
length-take zero src le = refl
length-take (suc k) [] le = absurd (omega arith)
length-take (suc k) (b ∷ src) le = omega (arith, length-take k src (omega arith))

pub take_all : (src : List ℕ) → take (length src) src ≡ src
take_all [] = refl
take_all (b ∷ src) = ap (λ (t : List ℕ). b ∷ t) (take_all src)

pub write_bytes_same :
    (m n : ℕ → ℕ) (start : ℕ) (bytes : List ℕ) (x : ℕ)
    → m x ≡ n x
    → write_bytes m start bytes x ≡ write_bytes n start bytes x
write_bytes_same m n start [] x e = e
write_bytes_same m n start (b ∷ bytes) x e =
    let rest = write_bytes_same m n (start + 1) bytes x e in ground (arith, rest)

-- Two writes, the second behind the first, are one.
pub write_bytes-append :
    (m : ℕ → ℕ) (start next : ℕ) (xs ys : List ℕ) (x : ℕ)
    → next ≡ start + length xs
    → write_bytes (write_bytes m start xs) next ys x ≡ write_bytes m start (xs ++ ys) x
write_bytes-append m start next [] ys x e = ap (λ n. write_bytes m n ys x) (e ∙ omega arith)
write_bytes-append m start next (b ∷ xs) ys x e = elim (Bool-cases (x == start)) [
  | inl here ↦
      write_bytes_outside (write_bytes m start (b ∷ xs)) next ys x (inl (ground arith))
      ∙ if_true _ _ here
      ∙ sym (if_true _ _ here)
  | inr apart ↦
      write_bytes_same (write_bytes m start (b ∷ xs)) (write_bytes m (start + 1) xs) next ys x
        (if_false _ _ apart)
      ∙ write_bytes-append m (start + 1) next xs ys x (e ∙ omega arith)
      ∙ sym (if_false _ _ apart)
]

pub read_bytes_same :
    (m n : ℕ → ℕ) (start len : ℕ)
    → ((x : ℕ) → start ≤ x → m x ≡ n x)
    → read_bytes m start len ≡ read_bytes n start len
read_bytes_same m n start zero same = refl
read_bytes_same m n start (suc len) same =
    let rest = read_bytes_same m n (start + 1) len (λ x le. same x (omega arith)) in
    rw (same start (omega arith), rest) refl

pub read_bytes-add :
    (m : ℕ → ℕ) (start next k len : ℕ)
    → next ≡ start + k
    → read_bytes m start (k + len) ≡ read_bytes m start k ++ read_bytes m next len
read_bytes-add m start next zero len e =
    ap (λ n. read_bytes m start n) (omega arith) ∙ ap (λ n. read_bytes m n len) (omega arith)
read_bytes-add m start next (suc k) len e =
    ap (λ n. read_bytes m start n) (suc_add k len)
    ∙ ap (λ (t : List ℕ). m start ∷ t) (read_bytes-add m (start + 1) next k len (omega arith))
