-- ===== src/Scan/Match.antt =====
-- `matches_at`, `scan` and `scan_all` of src/scan.rs against a description of a match.
use mathlib.Core.Path.{subst}
use native.Mathlib.Nat.{le_refl}
use neohook.Base.{
  ℕ, zero, suc, ◌+◌, ◌-◌, ◌≤◌, ◌<◌, ◌≡◌, refl, sym, ◌↔◌, inl, inr, Bool, true, false, Option, none,
  some, List, [], ◌∷◌, length, get_elem?, In, arith, Bool-cases, ◌==◌, ltb, ℕ_discrete,
}
use neohook.Scan.{Pattern, agrees, matches_at, find_from, scan, filter_from, scan_all}

pub record IsWellFormed (p : Pattern) : Type 0 where
  pub same_length : length p.mask ≡ length p.bytes
  pub not_empty : 0 < length p.bytes

-- Every fixed byte of the pattern stands in the haystack, at its place after `i`.
abbrev pub AgreesAt : List ℕ → List Bool → List ℕ → ℕ → Type 0
AgreesAt bytes mask haystack i =
    (j : ℕ) → get_elem? mask j ≡ some true → get_elem? haystack (i + j) ≡ get_elem? bytes j

abbrev pub IsMatch : Pattern → List ℕ → ℕ → Type 0
IsMatch p haystack i = (i + length p.bytes ≤ length haystack) × AgreesAt p.bytes p.mask haystack i

get_elem?-some :
    {A : Type 0} (xs : List A) (i : ℕ) → i < length xs → (a : A) × (get_elem? xs i ≡ some a)
get_elem?-some [] i h = absurd (omega arith)
get_elem?-some (x ∷ xs) zero h = (x, refl)
get_elem?-some (x ∷ xs) (suc i) h = get_elem?-some xs i (omega arith)

AgreesAt-tail :
    (b : ℕ) (bytes : List ℕ) (f : Bool) (mask : List Bool) (h : List ℕ) (i : ℕ)
    → AgreesAt (b ∷ bytes) (f ∷ mask) h i
    → AgreesAt bytes mask h (i + 1)
AgreesAt-tail b bytes f mask h i a j e = ground (arith, a (suc j))

AgreesAt-cons :
    (b : ℕ) (bytes : List ℕ) (f : Bool) (mask : List Bool) (h : List ℕ) (i : ℕ)
    → (f ≡ true → get_elem? h i ≡ some b)
    → AgreesAt bytes mask h (i + 1)
    → AgreesAt (b ∷ bytes) (f ∷ mask) h i
AgreesAt-cons b bytes f mask h i e a zero m = ground arith
AgreesAt-cons b bytes f mask h i e a (suc j) m = ground (arith, a j)

-- In range the loop answers, and it answers what `AgreesAt` says.
agrees_iff :
    (bytes : List ℕ) (mask : List Bool) (h : List ℕ) (i : ℕ)
    → length mask ≡ length bytes
    → i + length bytes ≤ length h
    → (b : Bool) × (agrees bytes mask h i ≡ some b) × ((b ≡ true) ↔ AgreesAt bytes mask h i)
unfolding agrees
agrees_iff [] [] h i e r = (true, refl, (λ _ j m. cc, λ _. refl))
agrees_iff [] (f ∷ mask) h i e r = absurd (omega arith)
agrees_iff (b ∷ bytes) [] h i e r = absurd (omega arith)
agrees_iff (b ∷ bytes) (false ∷ mask) h i e r =
    let (x, ex, iff) = agrees_iff bytes mask h (i + 1) (omega arith) (omega arith) in
    (
      x,
      ex,
      (
        λ t. AgreesAt-cons b bytes false mask h i (λ c. cc) (iff.0 t),
        λ a. iff.1 (AgreesAt-tail b bytes false mask h i a),
      ),
    )
agrees_iff (b ∷ bytes) (true ∷ mask) h i e r =
    let (x, ex, iff) = agrees_iff bytes mask h (i + 1) (omega arith) (omega arith) in
    let (y, ey) = get_elem?-some h i (omega arith) in
    elim (Bool-cases (y == b)) [
      | inl same ↦ (
        x,
        ground (arith, ey, same, ex),
        (
          λ t. AgreesAt-cons b bytes true mask h i (λ _. ground arith) (iff.0 t),
          λ a. iff.1 (AgreesAt-tail b bytes true mask h i a),
        ),
      )
      | inr other ↦ (false, ground (arith, ey, other), (λ t. cc, λ a. absurd (ground (arith, a 0))))
    ]

pub matches_at_iff :
    (p : Pattern) (h : List ℕ) (i : ℕ)
    → IsWellFormed p
    → i + length p.bytes ≤ length h
    → (b : Bool) × (matches_at p h i ≡ some b) × ((b ≡ true) ↔ AgreesAt p.bytes p.mask h i)
unfolding matches_at
matches_at_iff p h i wf r = agrees_iff p.bytes p.mask h i wf.same_length r

-- What a search of `i, …, i + left - 1` answers: the first match, or none if there is none.
abbrev IsFirst : Pattern → List ℕ → ℕ → ℕ → Option ℕ → Type 0
IsFirst p h i left none = (k : ℕ) → i ≤ k → k < i + left → ¬ IsMatch p h k
IsFirst p h i left (some m) = (i ≤ m) × IsMatch p h m × ((k : ℕ) → i ≤ k → k < m → ¬ IsMatch p h k)

-- The members of a search that begins with `i`, from those of the search after it.
module _ (M : ℕ → Type 0) (i left : ℕ) (is : List ℕ)
    (all : (k : ℕ) → In k is ↔ ((i + 1 ≤ k) × (k < i + 1 + left) × M k)) where
  In-hit : M i → (k : ℕ) → In k (i ∷ is) ↔ ((i ≤ k) × (k < i + suc left) × M k)
  In-hit m k = (
    λ h. elim h [
      | inl e ↦ (omega arith, omega arith, subst M (sym e) m)
      | inr later ↦ let (low, high, mk) = (all k).0 later in (omega arith, omega arith, mk)
    ],
    λ h. elim (ℕ_discrete k i) [
      | yes e ↦ inl e
      | no ne ↦ inr ((all k).1 (omega arith, omega arith, h.2))
    ],
  )

  In-miss : ¬ M i → (k : ℕ) → In k is ↔ ((i ≤ k) × (k < i + suc left) × M k)
  In-miss no_match k = (
    λ later. let (low, high, mk) = (all k).0 later in (omega arith, omega arith, mk),
    λ h. elim (ℕ_discrete k i) [
      | yes e ↦ absurd (no_match (subst M e h.2))
      | no ne ↦ (all k).1 (omega arith, omega arith, h.2)
    ],
  )

module _ (p : Pattern) (h : List ℕ) where
  IsFirst-skip :
      (i left : ℕ) (r : Option ℕ)
      → ¬ IsMatch p h i
      → IsFirst p h (i + 1) left r
      → IsFirst p h i (suc left) r
  IsFirst-skip i left none no_match first = λ k low high. elim (ℕ_discrete k i) [
    | yes e ↦ subst (λ t. ¬ IsMatch p h t) (sym e) no_match
    | no ne ↦ first k (omega arith) (omega arith)
  ]
  IsFirst-skip i left (some m) no_match (after, match, before) = (
    omega arith,
    match,
    λ k low high. elim (ℕ_discrete k i) [
      | yes e ↦ subst (λ t. ¬ IsMatch p h t) (sym e) no_match
      | no ne ↦ before k (omega arith) high
    ],
  )

  find_from-IsFirst :
      (i left : ℕ)
      → IsWellFormed p
      → i + left + length p.bytes ≤ length h + 1
      → (r : Option ℕ) × (find_from p h i left ≡ some r) × IsFirst p h i left r
  unfolding find_from
  find_from-IsFirst i zero wf fits = (none, refl, λ k low high. absurd (omega arith))
  find_from-IsFirst i (suc left) wf fits =
      let (b, eb, iff) = matches_at_iff p h i wf (omega arith) in
      let (r, er, first) = find_from-IsFirst (i + 1) left wf (omega arith) in
      elim (Bool-cases b) [
        | inl t ↦ (
          some i,
          ground (arith, eb),
          (le_refl i, (omega arith, iff.0 t), λ k low high. absurd (omega arith)),
        )
        | inr f ↦ (r, ground (arith, eb), IsFirst-skip i left r (λ m. cc (iff.1 m.1)) first)
      ]

  abbrev pub IsFirstMatch : Option ℕ → Type 0
  IsFirstMatch none = (k : ℕ) → ¬ IsMatch p h k
  IsFirstMatch (some m) = IsMatch p h m × ((k : ℕ) → k < m → ¬ IsMatch p h k)

  IsFirst-all :
      (left : ℕ) (r : Option ℕ)
      → ((k : ℕ) → IsMatch p h k → k < left)
      → IsFirst p h 0 left r
      → IsFirstMatch r
  IsFirst-all left none bound first = λ k m. first k (omega arith) (omega (arith, bound k m)) m
  IsFirst-all left (some i) bound first = (first.1, λ k below. first.2 k (omega arith) below)

  -- `scan` never reads out of range, and answers the first match, or none if nothing matches.
  pub scan-IsFirstMatch : IsWellFormed p → (r : Option ℕ) × (scan h p ≡ some r) × IsFirstMatch r
  unfolding scan
  scan-IsFirstMatch wf = elim (Bool-cases (ltb (length h) (length p.bytes))) [
    | inl short ↦ (none, ground arith, λ k m. absurd (ground arith))
    | inr long ↦
        let left = length h - length p.bytes + 1 in
        let (r, e, first) = find_from-IsFirst 0 left wf (ground arith) in
        (r, ground arith, IsFirst-all left r (λ k m. ground arith) first)
  ]

  abbrev pub IsIncreasing : ℕ → List ℕ → Type 0
  IsIncreasing low [] = Unit
  IsIncreasing low (x ∷ xs) = (low ≤ x) × IsIncreasing (x + 1) xs

  IsIncreasing-mono : (a b : ℕ) (xs : List ℕ) → a ≤ b → IsIncreasing b xs → IsIncreasing a xs
  IsIncreasing-mono a b [] le s = tt
  IsIncreasing-mono a b (x ∷ xs) le s = (omega arith, s.1)

  filter_from_lem :
      (i left : ℕ)
      → IsWellFormed p
      → i + left + length p.bytes ≤ length h + 1
      → (is : List ℕ) × (filter_from p h i left ≡ some is)
        × IsIncreasing i is
        × ((k : ℕ) → In k is ↔ ((i ≤ k) × (k < i + left) × IsMatch p h k))
  unfolding filter_from
  filter_from_lem i zero wf fits = ([], refl, tt, λ k. (λ m. absurd m, λ m. absurd (omega arith)))
  filter_from_lem i (suc left) wf fits =
      let (b, eb, iff) = matches_at_iff p h i wf (omega arith) in
      let (is, er, up, all) = filter_from_lem (i + 1) left wf (omega arith) in
      elim (Bool-cases b) [
        | inl t ↦ (
          i ∷ is,
          ground (arith, eb),
          (omega arith, up),
          In-hit (IsMatch p h) i left is all (omega arith, iff.0 t),
        )
        | inr f ↦ (
          is,
          ground (arith, eb),
          IsIncreasing-mono i (i + 1) is (omega arith) up,
          In-miss (IsMatch p h) i left is all (λ m. cc (iff.1 m.1)),
        )
      ]

  -- `scan_all` never reads out of range, and answers exactly the matches, overlapping ones included,
  -- each once and in ascending order.
  pub scan_all_complete :
      IsWellFormed p
      → (is : List ℕ) × (scan_all h p ≡ some is)
        × IsIncreasing 0 is
        × ((k : ℕ) → In k is ↔ IsMatch p h k)
  unfolding scan_all
  scan_all_complete wf = elim (Bool-cases (ltb (length h) (length p.bytes))) [
    | inl short ↦ ([], ground arith, tt, λ k. (λ m. absurd m, λ m. absurd (ground arith)))
    | inr long ↦
        let left = length h - length p.bytes + 1 in
        let (is, e, up, all) = filter_from_lem 0 left wf (ground arith) in
        (
          is,
          ground arith,
          up,
          λ k. (λ m. ((all k).0 m).2, λ m. (all k).1 (omega arith, ground arith, m)),
        )
  ]
