-- ===== src/Mem/Written.antt =====
-- src/mem.rs: what `write_pages` writes, what it keeps, and the protections that it leaves.
use neohook.Base.{
  ℕ, ◌+◌, ◌-◌, ◌^◌, ◌<◌, ◌≤◌, ◌≡◌, refl, sym, ap, subst, ◌∙◌, inl, inr, Bool, true, false, Option,
  none, some, List, [], ◌∷◌, ◌++◌, length, take, drop, ltb, ◌||◌, ◌==◌, if_true, if_false,
  Bool-cases, arith,
}
use neohook.Inline.{write_bytes}
use neohook.Inline.Bytes.{write_bytes_outside}
use neohook.Mem.{
  Os, Protections, PageProtections, Space, page_readwrite, change, restore, write_batch,
  write_pages, for_each_page_batch, read_bytes, kept_bytes, write_memory_atomic,
}
use neohook.Mem.Restore.{Restorable, Changed, restore-same, change-Changed}
use neohook.Mem.Batches.{Stage, page_batches-Stage}
use neohook.Mem.Copies.{
  take-add, length-take, take_all, write_bytes_same, write_bytes-append, read_bytes_same,
  read_bytes-add,
}

-- The first `k` bytes of the source were written, and what they replace was kept.
pub record Copied (start : ℕ) (src : List ℕ) (first : Space) (k : ℕ) (s : Space) : Type 0 where
  pub bounded : k ≤ length src
  pub memory : (x : ℕ) → s.memory x ≡ write_bytes first.memory start (take k src) x
  pub protections : (x : ℕ) → s.protections x ≡ first.protections x
  pub orig : s.orig ≡ first.orig ++ read_bytes first.memory start k

abbrev pub Partly : ℕ → List ℕ → Space → Space → Type 0
Partly start src first s = (k : ℕ) × Copied start src first k s

-- The place that the loop has reached.
abbrev At : ℕ → List ℕ → Space → ℕ → Space → Type 0
At start src first place s = (k : ℕ) × ((place ≡ start + k) × Copied start src first k s)

append_assoc : (xs ys zs : List ℕ) → (xs ++ ys) ++ zs ≡ xs ++ (ys ++ zs)
append_assoc [] ys zs = refl
append_assoc (x ∷ xs) ys zs = ap (λ (t : List ℕ). x ∷ t) (append_assoc xs ys zs)

append-nil : (xs : List ℕ) → xs ++ [] ≡ xs
append-nil [] = refl
append-nil (x ∷ xs) = ap (λ (t : List ℕ). x ∷ t) (append-nil xs)

module _ (os : Os) (start : ℕ) (src : List ℕ) (first : Space)
    (can : Restorable os first.protections) where
  Copied-more :
      (chunk len k : ℕ) (s : Space) (saved : PageProtections) (p : Protections)
      → chunk ≡ start + k
      → k + len ≤ length src
      → Copied start src first k s
      → ((x : ℕ) → (restore os saved p).1 x ≡ first.protections x)
      → Copied start src first (k + len) ((write_batch os start src chunk len s (some saved, p)).1)
  unfolding write_batch
  Copied-more chunk len k s saved p e fits c back = record {
    bounded = fits;
    memory = λ x.
        write_bytes_same s.memory (write_bytes first.memory start (take k src)) chunk
          (take len (drop (chunk - start) src)) x (c.memory x)
        ∙ write_bytes-append first.memory start chunk (take k src)
            (take len (drop (chunk - start) src)) x
            (e ∙ ap (λ n. start + n) (sym (length-take k src c.bounded)))
        ∙ ap (λ n. write_bytes first.memory start (take k src ++ take len (drop n src)) x)
            (omega arith)
        ∙ ap (λ (bytes : List ℕ). write_bytes first.memory start bytes x)
            (sym (take-add k len src));
    protections = back;
    orig =
        ap (λ (bytes : List ℕ). s.orig ++ bytes)
          (read_bytes_same s.memory first.memory chunk len (λ x le.
            c.memory x
            ∙ write_bytes_outside first.memory start (take k src) x
                (inr (omega (arith, length-take k src c.bounded)))))
        ∙ ap (λ (bytes : List ℕ). bytes ++ read_bytes first.memory chunk len) c.orig
        ∙ append_assoc first.orig (read_bytes first.memory start k)
            (read_bytes first.memory chunk len)
        ∙ ap (λ (bytes : List ℕ). first.orig ++ bytes)
            (sym (read_bytes-add first.memory start chunk k len e));
  }

  batch-Stage :
      (chunk next : ℕ) (s : Space) (r : Option PageProtections × Protections)
      → chunk < next
      → next ≤ start + length src
      → At start src first chunk s
      → Changed first.protections r
      → Stage
          (At start src first)
          (Partly start src first)
          next
          (write_batch os start src chunk (next - chunk) s r)
  unfolding Stage write_batch Changed
  batch-Stage chunk next s (none, p) lt le (k, (e, c)) same =
      (k, record { bounded = c.bounded; memory = c.memory; protections = same; orig = c.orig })
  batch-Stage chunk next s (some saved, p) lt le (k, (e, c)) changed = (
    k + (next - chunk),
    (
      omega arith,
      Copied-more chunk (next - chunk) k s saved p e (omega arith) c
          (restore-same os first.protections saved p can changed),
    ),
  )

  -- The result of a write: all was copied after a success, and a part of it after a failure.
  abbrev pub Result : Bool × Space → Type 0
  Result r =
      Stage (λ k (s : Space). Copied start src first k s) (Partly start src first) (length src) r

  nothing-Copied : Copied start src first 0 first
  nothing-Copied = record {
    bounded = omega arith;
    memory = λ x. refl;
    protections = λ x. refl;
    orig = sym (append-nil first.orig);
  }

  at_end-Result :
      (r : Bool × Space)
      → Stage (At start src first) (Partly start src first) (start + length src) r
      → Result r
  unfolding Stage
  at_end-Result (true, s) (k, (e, c)) = subst (λ n. Copied start src first n s) (omega arith) c
  at_end-Result (false, s) q = q

  pub write_pages-Result : Result (write_pages os start src first)
  unfolding write_pages for_each_page_batch Stage
  write_pages-Result = elim (Bool-cases (ltb (start + length src) (2 ^ 64))) [
    | inr over ↦ subst Result (sym (if_false _ _ over)) (0, nothing-Copied)
    | inl fits ↦ subst Result (sym (if_true _ _ fits)) (
        at_end-Result _ (
          page_batches-Stage (At start src first) (Partly start src first)
            (λ chunk len (t : Space).
              write_batch os start src chunk len t
                (change os chunk len page_readwrite t.protections))
            (start + length src) (ground arith)
            (λ chunk next s lt le at. batch-Stage chunk next s _ lt le at (
              change-Changed os chunk (next - chunk) page_readwrite first.protections s.protections
                can (λ x. (at.1.1).protections x)))
            (length src) start first (omega arith) (omega arith)
            (0, (omega arith, nothing-Copied))))
  ]

-- What `write_memory_atomic` answers and leaves.
pub Answered : ℕ → List ℕ → Space → Option (List ℕ) × Space → Type 0
Answered target src first (some orig, s) =
    (orig ≡ read_bytes first.memory target (length src))
    × ((x : ℕ) → s.memory x ≡ write_bytes first.memory target src x)
    × ((x : ℕ) → s.protections x ≡ first.protections x)
Answered target src first (none, s) =
    ((k : ℕ) × (k ≤ length src)
      × ((x : ℕ) → s.memory x ≡ write_bytes first.memory target (take k src) x))
    × ((x : ℕ) → s.protections x ≡ first.protections x)

kept-Answered :
    (os : Os) (target : ℕ) (src : List ℕ) (first : Space) (can : Restorable os first.protections)
    (r : Bool × Space)
    → Result os target src (record first { orig = [] }) can r
    → Answered target src first (kept_bytes r)
unfolding Stage kept_bytes Answered
kept-Answered os target src first can (true, s) c = (
  c.orig,
  λ x. c.memory x ∙ ap (λ (bytes : List ℕ). write_bytes first.memory target bytes x) (take_all src),
  c.protections,
)
kept-Answered os target src first can (false, s) (k, c) = ((k, c.bounded, c.memory), c.protections)

null-Answered :
    (target : ℕ) (src : List ℕ) (first : Space) → Answered target src first (none, first)
unfolding Answered
null-Answered target src first = ((0, omega arith, λ x. refl), λ x. refl)

-- Over pages that can be given the protections they have, `write_memory_atomic` writes all of the
-- bytes and answers with those that stood there before, or it answers with nothing and has written
-- a first part of the bytes, which may be empty. In both cases, for a range of any length, each
-- page has its own protection again.
pub write_memory_atomic-Answered :
    (os : Os) (target : ℕ) (src : List ℕ) (first : Space)
    → Restorable os first.protections
    → Answered target src first (write_memory_atomic os target src first)
unfolding write_memory_atomic
write_memory_atomic-Answered os target src first can =
    elim (Bool-cases (target == 0 || length src == 0)) [
      | inl null ↦
          subst (Answered target src first) (sym (if_true _ _ null))
            (null-Answered target src first)
      | inr some_bytes ↦ subst (Answered target src first) (sym (if_false _ _ some_bytes)) (
          kept-Answered os target src first can _
            (write_pages-Result os target src (record first { orig = [] }) can))
    ]
