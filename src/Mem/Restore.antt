-- ===== src/Mem/Restore.antt =====
-- src/mem.rs: the protections that a change of pages saves are enough to put them back.
use neohook.Base.{
  ℕ, zero, suc, ◌+◌, ◌*◌, ◌<◌, ◌≡◌, sym, ap, subst, ◌∙◌, ◌⊎◌, inl, inr, true, Option, none, some,
  List, [], ◌∷◌, ◌++◌, length, Bool-cases, if_true, if_false, ◌==◌, arith,
}
use neohook.Base.Assign.{assign, assign-back}
use neohook.Mem.{
  Os, Protections, PageProtections, page_size, detour_page_protect_adjust_execute, virtual_protect,
  protect_page_same_execute, restored_page, restore_pages, restore, change_page, change_pages,
  change,
}

-- Every page can be given the protection that it has here.
abbrev pub Restorable : Os → Protections → Type 0
Restorable os p = (page : ℕ) → os.protectable page (p page) ≡ true

-- `x` is one of the pages that start at `page`, one for each saved protection.
abbrev pub HasPage : ℕ → ℕ → List ℕ → Type 0
HasPage x page [] = ⊥
HasPage x page (old ∷ rest) = (page ≡ x) ⊎ HasPage x (page + page_size) rest

abbrev pub TrueOlds : Protections → ℕ → List ℕ → Type 0
TrueOlds first page [] = Unit
TrueOlds first page (old ∷ rest) = (old ≡ first page) × TrueOlds first (page + page_size) rest

HasPage-below :
    (x page : ℕ) (olds : List ℕ) → HasPage x page olds → x < page + length olds * page_size
HasPage-below x page [] at = absurd at
HasPage-below x page (old ∷ rest) (inl e) = omega arith
HasPage-below x page (old ∷ rest) (inr at) =
    omega (arith, HasPage-below x (page + page_size) rest at)

HasPage-snoc :
    (x page new : ℕ) (olds : List ℕ)
    → HasPage x page olds ⊎ (page + length olds * page_size ≡ x)
    → HasPage x page (olds ++ new ∷ [])
HasPage-snoc x page new [] (inl at) = absurd at
HasPage-snoc x page new [] (inr e) = inl (omega arith)
HasPage-snoc x page new (old ∷ rest) (inl (inl e)) = inl e
HasPage-snoc x page new (old ∷ rest) (inl (inr at)) =
    inr (HasPage-snoc x (page + page_size) new rest (inl at))
HasPage-snoc x page new (old ∷ rest) (inr e) =
    inr (HasPage-snoc x (page + page_size) new rest (inr (omega arith)))

TrueOlds-snoc :
    (first : Protections) (page new : ℕ) (olds : List ℕ)
    → TrueOlds first page olds
    → new ≡ first (page + length olds * page_size)
    → TrueOlds first page (olds ++ new ∷ [])
TrueOlds-snoc first page new [] all e = (e ∙ ap first (omega arith), tt)
TrueOlds-snoc first page new (old ∷ rest) (same, all) e =
    (same, TrueOlds-snoc first (page + page_size) new rest all (e ∙ ap first (omega arith)))

virtual_protect_works :
    (os : Os) (page new : ℕ) (p : Protections)
    → os.protectable page new ≡ true
    → virtual_protect os page new p ≡ some (p page, assign p page new)
unfolding virtual_protect
virtual_protect_works os page new p can = if_true _ _ can

pub restore_pages-same :
    (os : Os) (first now : Protections) (page : ℕ) (olds : List ℕ) (x : ℕ)
    → Restorable os first
    → TrueOlds first page olds
    → (now x ≡ first x) ⊎ HasPage x page olds
    → (restore_pages os page olds now).1 x ≡ first x
unfolding restore_pages restored_page
restore_pages-same os first now page [] x can all (inl e) = e
restore_pages-same os first now page [] x can all (inr at) = absurd at
restore_pages-same os first now page (old ∷ rest) x can (same, all) moved =
    let works =
      virtual_protect_works os page old now
        (subst (λ o. os.protectable page o ≡ true) (sym same) (can page)) in
    ap (λ o. (restore_pages os (page + page_size) rest ((restored_page now o).1)).1 x) works
    ∙ restore_pages-same os first (assign now page old) (page + page_size) rest x can all
        (assign-back first now page old x same moved)

-- The saved protections are true, and all that differs from the start is saved.
abbrev pub Saved : Protections → PageProtections → Protections → Type 0
Saved first saved p =
    TrueOlds first saved.first_page saved.old
    × ((x : ℕ) → (p x ≡ first x) ⊎ HasPage x saved.first_page saved.old)

-- What `change` leaves: the start again after a failure.
unfoldable pub Changed : Protections → Option PageProtections × Protections → Type 0
Changed first (none, p) = (x : ℕ) → p x ≡ first x
Changed first (some saved, p) = Saved first saved p

pub restore-same :
    (os : Os) (first : Protections) (saved : PageProtections) (p : Protections)
    → Restorable os first
    → Saved first saved p
    → (x : ℕ) → (restore os saved p).1 x ≡ first x
unfolding restore
restore-same os first saved p can (all, moved) x =
    restore_pages-same os first p saved.first_page saved.old x can all (moved x)

-- A change of the protection of one page tells the old one.
protect_page_told :
    (os : Os) (page new : ℕ) (p : Protections)
    → (protect_page_same_execute os page new p ≡ none)
      ⊎ ((to : ℕ) × (protect_page_same_execute os page new p ≡ some (p page, assign p page to)))
unfolding protect_page_same_execute virtual_protect
protect_page_told os page new p = elim (Bool-cases (os.queryable page)) [
  | inr lost ↦ inl (if_false _ _ lost)
  | inl found ↦
      let to = detour_page_protect_adjust_execute (p page) new in
      elim (Bool-cases (os.protectable page to)) [
        | inr kept ↦ inl (if_true _ _ found ∙ if_false _ _ kept)
        | inl can ↦ inr (to, if_true _ _ found ∙ if_true _ _ can)
      ]
]

still_first :
    (first p : Protections) (saved : PageProtections)
    → Saved first saved p
    → p (saved.first_page + length saved.old * page_size)
      ≡ first (saved.first_page + length saved.old * page_size)
still_first first p saved (all, moved) =
    elim (moved (saved.first_page + length saved.old * page_size)) [
      | inl e ↦ e
      | inr at ↦ absurd (omega (arith, HasPage-below _ saved.first_page saved.old at))
    ]

Saved-more :
    (first p : Protections) (saved : PageProtections) (to : ℕ)
    → Saved first saved p
    → let page = saved.first_page + length saved.old * page_size in
      Saved first (record saved { old = saved.old ++ p page ∷ [] }) (assign p page to)
Saved-more first p saved to (all, moved) =
    let page = saved.first_page + length saved.old * page_size in
    (
      TrueOlds-snoc first saved.first_page (p page) saved.old all
          (still_first first p saved (all, moved)),
      λ x. elim (Bool-cases (x == page)) [
        | inl here ↦ inr (HasPage-snoc x saved.first_page (p page) saved.old (inr (ground arith)))
        | inr apart ↦ elim (moved x) [
          | inl e ↦ inl (if_false _ _ apart ∙ e)
          | inr at ↦ inr (HasPage-snoc x saved.first_page (p page) saved.old (inl at))
        ]
      ],
    )

change_pages-Changed :
    (os : Os) (new rounds : ℕ) (first p : Protections) (saved : PageProtections)
    → Restorable os first
    → Saved first saved p
    → Changed first (change_pages os new rounds saved p)
unfolding change_pages change_page Changed
change_pages-Changed os new zero first p saved can s = s
change_pages-Changed os new (suc rounds) first p saved can s =
    let page = saved.first_page + length saved.old * page_size in
    let after : Option (ℕ × Protections) → Type 0 =
      λ r. Changed first (change_page os (change_pages os new rounds) saved p r) in
    elim (protect_page_told os page new p) [
      | inl refused ↦ subst after (sym refused) (restore-same os first saved p can s)
      | inr (to, told) ↦ subst after (sym told) (
          change_pages-Changed os new rounds first (assign p page to)
            (record saved { old = saved.old ++ p page ∷ [] }) can (Saved-more first p saved to s))
    ]

pub change-Changed :
    (os : Os) (start len new : ℕ) (first p : Protections)
    → Restorable os first
    → ((x : ℕ) → p x ≡ first x)
    → Changed first (change os start len new p)
unfolding change
change-Changed os start len new first p can same =
    change_pages-Changed os new _ first p _ can (tt, λ x. inl (same x))
