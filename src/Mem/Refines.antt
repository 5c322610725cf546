-- ===== src/Mem/Refines.antt =====
-- src/mem.rs: a write of code bytes does what the hooks count on, that is what
-- `Inline.write_code_bytes` says: it writes all of the bytes or none.
use neohook.Base.{
  ℕ, zero, suc, ◌+◌, ◌-◌, ◌*◌, ◌^◌, ◌<◌, ◌≤◌, ◌≡◌, refl, sym, ap, subst, ◌∙◌, inl, inr, Bool, true,
  false, ◌&&◌, ◌||◌, Option, none, some, List, [], ◌∷◌, ◌++◌, length, take, drop, min, ltb, ◌==◌,
  if◌then◌else◌, if_true, if_false, Bool-cases, arith,
}
use neohook.Base.Assign.{assign}
use neohook.Inline
use neohook.Inline.{Writable, write_bytes}
use neohook.Mem.{
  Os, Protections, PageProtections, Space, page_readwrite, page_size, max_batch_pages, page_of,
  page_count, batch_end, detour_page_protect_adjust_execute, virtual_protect,
  protect_page_same_execute, change_page, change_pages, change, write_batch, unless_stopped,
  page_batches, for_each_page_batch, write_pages, write_code_bytes,
}
use neohook.Mem.Restore.{Restorable, Changed, restore-same, change-Changed}
use neohook.Mem.Batches.{page_of_lem}
use neohook.Mem.Copies.{take_all}

is_some {ℓ} : {A : Type ℓ} → Option A → Bool
is_some none = false
is_some (some a) = true

-- Every one of these pages can be found and made writable.
pub can_lift : Os → Protections → ℕ → ℕ → Bool
can_lift os p page zero = true
can_lift os p page (suc rounds) =
    os.queryable page
    && (os.protectable page (detour_page_protect_adjust_execute (p page) page_readwrite)
        && can_lift os p (page + page_size) rounds)

-- The same for all the pages of a range.
pub writable : Os → Protections → Writable
writable os p start len = can_lift os p (page_of start) (min (page_count start len) max_batch_pages)

-- The concrete outcome of a write stands for the abstract one, and no protection has changed.
pub Refined : Space → Bool × Space → Option (ℕ → ℕ) → Type 0
Refined first (true, s) (some memory) =
    ((x : ℕ) → s.memory x ≡ memory x) × ((x : ℕ) → s.protections x ≡ first.protections x)
Refined first (false, s) none =
    ((x : ℕ) → s.memory x ≡ first.memory x) × ((x : ℕ) → s.protections x ≡ first.protections x)
Refined first (true, s) none = ⊥
Refined first (false, s) (some memory) = ⊥

and_split : {a b c : Bool} → a ≡ true → b ≡ true → (a && (b && c)) ≡ c
and_split e f = rw (e, f) refl

change_pages-lifts :
    (os : Os) (rounds : ℕ) (first p : Protections) (saved : PageProtections)
    → ((x : ℕ) → saved.first_page + length saved.old * page_size ≤ x → p x ≡ first x)
    → is_some ((change_pages os page_readwrite rounds saved p).0)
      ≡ can_lift os first (saved.first_page + length saved.old * page_size) rounds
unfolding change_pages change_page can_lift is_some protect_page_same_execute virtual_protect
change_pages-lifts os zero first p saved same = refl
change_pages-lifts os (suc rounds) first p saved same =
    let page = saved.first_page + length saved.old * page_size in
    let to : ℕ → ℕ = λ old. detour_page_protect_adjust_execute old page_readwrite in
    let answer : Option (ℕ × Protections) → Bool =
      λ r. is_some ((change_page os (change_pages os page_readwrite rounds) saved p r).0) in
    let here = same page (omega arith) in
    elim (Bool-cases (os.queryable page)) [
      | inr lost ↦ ap answer (if_false _ _ lost) ∙ rw lost refl
      | inl found ↦ elim (Bool-cases (os.protectable page (to (first page)))) [
        | inr kept ↦
            ap answer (
              if_true _ _ found
              ∙ if_false _ _ (ap (λ old. os.protectable page (to old)) here ∙ kept))
            ∙ rw (found, kept) refl
        | inl can ↦
            ap answer (
              if_true _ _ found ∙ if_true _ _ (ap (λ old. os.protectable page (to old)) here ∙ can))
            ∙ change_pages-lifts os rounds first (assign p page (to (p page)))
                (record saved { old = saved.old ++ p page ∷ [] })
                (λ x le.
                  if_false _ _ (next_apart x saved.first_page (p page) saved.old le)
                  ∙ same x (omega (arith, next_page saved.first_page (p page) saved.old)))
            ∙ ap (λ n. can_lift os first n rounds) (next_page saved.first_page (p page) saved.old)
            ∙ sym (and_split found can)
      ]
    ]
  where
    next_page :
        (page new : ℕ) (olds : List ℕ)
        → page + length (olds ++ new ∷ []) * page_size ≡ page + length olds * page_size + page_size
    next_page page new [] = omega arith
    next_page page new (old ∷ olds) = omega (arith, next_page page new olds)

    next_apart :
        (x page new : ℕ) (olds : List ℕ)
        → page + length (olds ++ new ∷ []) * page_size ≤ x
        → (x == page + length olds * page_size) ≡ false
    next_apart x page new olds le = ground (arith, next_page page new olds)

change-lifts :
    (os : Os) (start len : ℕ) (p : Protections)
    → is_some ((change os start len page_readwrite p).0) ≡ writable os p start len
unfolding change writable
change-lifts os start len p =
    change_pages-lifts os (min (page_count start len) max_batch_pages) p p
      (record { first_page = page_of start; old = [] }) (λ x le. refl)
    ∙ ap (λ n. can_lift os p n (min (page_count start len) max_batch_pages)) (omega arith)

last_batch :
    {S : Type 0} (f : ℕ → ℕ → S → Bool × S) (fuel end_of : ℕ) (r : Bool × S)
    → unless_stopped r (page_batches f fuel end_of end_of) ≡ r
unfolding unless_stopped page_batches
last_batch f zero end_of (true, s) = refl
last_batch f (suc fuel) end_of (true, s) = if_false {b = ltb end_of end_of} _ _ (ground arith)
last_batch f fuel end_of (false, s) = refl

one_batch_end :
    (start len : ℕ)
    → len ≤ 7 * page_size
    → start + len < 2 ^ 64
    → batch_end start (start + len) ≡ start + len
unfolding batch_end
one_batch_end start len short fits = ground (arith, page_of_lem start (omega arith))

-- A short write has one batch.
one_batch :
    (os : Os) (start : ℕ) (src : List ℕ) (s : Space)
    → 0 < length src
    → length src ≤ 7 * page_size
    → ltb (start + length src) (2 ^ 64) ≡ true
    → write_pages os start src s
      ≡ write_batch os start src start
          (length src)
          s
          (change os start (length src) page_readwrite s.protections)
unfolding write_pages for_each_page_batch page_batches
one_batch os start [] s some_bytes short fits = absurd (omega arith)
one_batch os start (b ∷ src) s some_bytes short fits =
    let f : ℕ → ℕ → Space → Bool × Space = λ chunk len t.
      write_batch os start (b ∷ src) chunk len t
        (change os chunk len page_readwrite t.protections) in
    let end_of = start + length (b ∷ src) in
    if_true _ _ fits
    ∙ if_true {b = ltb start end_of} _ _ (ground arith)
    ∙ ap
        (λ next.
          unless_stopped (f start (next - start) s) (page_batches f (length src) next end_of))
        (one_batch_end start (length (b ∷ src)) short (ground arith))
    ∙ last_batch f (length src) end_of (f start (end_of - start) s)
    ∙ ap (λ n. f start n s) (omega arith)

batch-Refined :
    (os : Os) (start : ℕ) (src : List ℕ) (s : Space) (r : Option PageProtections × Protections)
    → Restorable os s.protections
    → Changed s.protections r
    → Refined s
        (write_batch os start src start (length src) s r)
        (if is_some (r.0) then some (write_bytes s.memory start src) else none)
unfolding write_batch Refined is_some Changed
batch-Refined os start src s (none, p) can same = (λ x. refl, same)
batch-Refined os start src s (some saved, p) can changed = (
  λ x.
      ap (λ n. write_bytes s.memory start (take (length src) (drop n src)) x) {x = start - start}
        {y = 0} (omega arith)
      ∙ ap (λ (bytes : List ℕ). write_bytes s.memory start bytes x) (take_all src),
  restore-same os s.protections saved p can changed,
)

both_if :
    (s : Space) (b : Bool) (r q : Bool × Space) (m n : Option (ℕ → ℕ))
    → (b ≡ true → Refined s r m)
    → (b ≡ false → Refined s q n)
    → Refined s (if b then r else q) (if b then m else n)
both_if s true r q m n h k = h refl
both_if s false r q m n h k = k refl

nothing-Refined : (s : Space) → Refined s (false, s) none
unfolding Refined
nothing-Refined s = (λ x. refl, λ x. refl)

write_pages-Refined :
    (os : Os) (target : ℕ) (src : List ℕ) (s : Space)
    → Restorable os s.protections
    → length src ≤ 7 * page_size
    → 0 < length src
    → Refined s (write_pages os target src s) (
        if ltb (target + length src) (2 ^ 64) && writable os s.protections target (length src)
        then some (write_bytes s.memory target src)
        else none)
unfolding write_pages
write_pages-Refined os target src s can short some_bytes =
    let changed = change os target (length src) page_readwrite s.protections in
    let batch = write_batch os target src target (length src) s changed in
    let lifts = change-lifts os target (length src) s.protections in
    let all_or_none : Bool → Bool → Option (ℕ → ℕ) =
      λ fit lift. if fit && lift then some (write_bytes s.memory target src) else none in
    let lift = writable os s.protections target (length src) in
    elim (Bool-cases (ltb (target + length src) (2 ^ 64))) [
      | inr over ↦
          subst (λ r. Refined s r (all_or_none (ltb (target + length src) (2 ^ 64)) lift))
            (sym (if_false _ _ over))
            (subst (λ fit. Refined s (false, s) (all_or_none fit lift)) (sym over)
              (nothing-Refined s))
      | inl fits ↦
          subst (λ r. Refined s r (all_or_none (ltb (target + length src) (2 ^ 64)) lift))
            (sym (one_batch os target src s some_bytes short fits))
            (subst (λ fit. Refined s batch (all_or_none fit lift)) (sym fits)
              (subst (λ b. Refined s batch (all_or_none true b)) lifts
                (batch-Refined os target src s changed can (
                  change-Changed os target (length src) page_readwrite s.protections s.protections
                    can (λ x. refl)))))
    ]

-- Take a write of at most seven pages, over pages that can be given the protections they have. It
-- implements the write that the hooks count on, which writes all of the bytes where the address and
-- the length are not zero, the range ends below 2^64 and each page can be found and made writable,
-- and else none; in all cases each page has its own protection again.
pub write_code_bytes-Refined :
    (os : Os) (target : ℕ) (src : List ℕ) (s : Space)
    → Restorable os s.protections
    → length src ≤ 7 * page_size
    → Refined s
        (write_code_bytes os target src s)
        (Inline.write_code_bytes (writable os s.protections) s.memory target src)
unfolding write_code_bytes Inline.write_code_bytes
write_code_bytes-Refined os target src s can short =
    both_if s (target == 0 || length src == 0) _ _ _ _ (λ null. nothing-Refined s)
      (λ some_bytes. write_pages-Refined os target src s can short (ground arith))
