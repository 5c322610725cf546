-- ===== src/Registry/Order.antt =====
-- The order in which `unhook_all` of src/registry.rs drops the hooks, and what a name holds.
use neohook.Base.{
  ℕ, ◌≤◌, ◌≡◌, ◌≢◌, refl, ap, sym, subst, All, In, ◌==◌, ◌∙◌, ◌⊎◌, inl, inr, Option, none, some,
  List, [], ◌∷◌, length, leb, Bool-cases, Option-cases, if_true, if_false, true, false, arith,
}
use neohook.Base.Maps.{find_key, insert_key, find-insert, find-remove, find-remove_other}
use neohook.Base.Errors.{DetourError}
use neohook.Base.Results.{Result, ok, err}
use neohook.Registry.{
  unhook_named, unhook_result, Registry, get_or_insert, hook_of, register, take_from, take_hook,
  insert_newest, sort_newest, values, dropped, unhook_all, count,
}

order_of : (a b : ℕ) → leb a b ≡ true → a ≤ b
order_of a b h = ground arith

other_order : (a b : ℕ) → leb a b ≡ false → b ≤ a
other_order a b h = ground arith

not_equal : (a b : ℕ) → b ≢ a → (a == b) ≡ false
not_equal a b d = ground arith

some_injective : {A : Type 0} {a b : A} → some a ≡ some b → a ≡ b
some_injective e = cc

module _ {H : Type 0} where
  -- No hook of the list has a larger sequence number than one before it.
  abbrev pub NewestFirst : List (H × ℕ) → Type 0
  NewestFirst [] = Unit
  NewestFirst (h ∷ rest) = All (λ (o : H × ℕ). o.1 ≤ h.1) rest × NewestFirst rest

  All-weaken :
      (a b : ℕ) (hs : List (H × ℕ))
      → a ≤ b
      → All (λ (o : H × ℕ). o.1 ≤ a) hs
      → All (λ (o : H × ℕ). o.1 ≤ b) hs
  All-weaken a b [] le all = tt
  All-weaken a b (h ∷ hs) le (first, all) = (omega arith, All-weaken a b hs le all)

  All-insert_newest :
      (bound : ℕ) (h : H × ℕ) (hs : List (H × ℕ))
      → h.1 ≤ bound
      → All (λ (o : H × ℕ). o.1 ≤ bound) hs
      → All (λ (o : H × ℕ). o.1 ≤ bound) (insert_newest h hs)
  unfolding insert_newest
  All-insert_newest bound h [] le all = (le, tt)
  All-insert_newest bound h (other ∷ rest) le (first, all) =
      elim (Bool-cases (leb (other.1) (h.1))) [
        | inl small ↦
            subst (λ l. All (λ (o : H × ℕ). o.1 ≤ bound) l) (sym (if_true _ _ small))
              (le, (first, all))
        | inr big ↦
            subst (λ l. All (λ (o : H × ℕ). o.1 ≤ bound) l) (sym (if_false _ _ big))
              (first, All-insert_newest bound h rest le all)
      ]

  insert_newest-NewestFirst :
      (h : H × ℕ) (hs : List (H × ℕ)) → NewestFirst hs → NewestFirst (insert_newest h hs)
  unfolding insert_newest
  insert_newest-NewestFirst h [] sorted = (tt, tt)
  insert_newest-NewestFirst h (other ∷ rest) (all, sorted) =
      elim (Bool-cases (leb (other.1) (h.1))) [
        | inl small ↦
            let le = order_of (other.1) (h.1) small in
            subst (λ l. NewestFirst l) (sym (if_true _ _ small))
              ((le, All-weaken (other.1) (h.1) rest le all), (all, sorted))
        | inr big ↦
            subst (λ l. NewestFirst l) (sym (if_false _ _ big))
              (
                All-insert_newest (other.1) h rest (other_order (other.1) (h.1) big) all,
                insert_newest-NewestFirst h rest sorted,
              )
      ]

  sort_newest-NewestFirst : (hs : List (H × ℕ)) → NewestFirst (sort_newest hs)
  unfolding sort_newest
  sort_newest-NewestFirst [] = tt
  sort_newest-NewestFirst (h ∷ hs) =
      insert_newest-NewestFirst h (sort_newest hs) (sort_newest-NewestFirst hs)

  In-insert_newest :
      (a h : H × ℕ) (hs : List (H × ℕ)) → (a ≡ h) ⊎ In a hs → In a (insert_newest h hs)
  unfolding insert_newest
  In-insert_newest a h [] at = at
  In-insert_newest a h (other ∷ rest) at = elim (Bool-cases (leb (other.1) (h.1))) [
    | inl small ↦ subst (λ l. In a l) (sym (if_true _ _ small)) at
    | inr big ↦
        subst (λ l. In a l) (sym (if_false _ _ big))
          (elim at [
            | inl e ↦ inr (In-insert_newest a h rest (inl e))
            | inr (inl e) ↦ inl e
            | inr (inr deep) ↦ inr (In-insert_newest a h rest (inr deep))
          ])
  ]

  In-sort_newest : (a : H × ℕ) (hs : List (H × ℕ)) → In a hs → In a (sort_newest hs)
  unfolding sort_newest
  In-sort_newest a [] at = at
  In-sort_newest a (h ∷ hs) (inl e) = In-insert_newest a h (sort_newest hs) (inl e)
  In-sort_newest a (h ∷ hs) (inr at) =
      In-insert_newest a h (sort_newest hs) (inr (In-sort_newest a hs at))

  In-values :
      (name : ℕ) (h : H × ℕ) (m : List (ℕ × (H × ℕ))) → find_key name m ≡ some h → In h (values m)
  unfolding values
  In-values name h [] found = cc
  In-values name h ((key, other) ∷ m) found = elim (Bool-cases (key == name)) [
    | inl hit ↦ inl (some_injective (sym (sym (if_true _ _ hit) ∙ found)))
    | inr miss ↦ inr (In-values name h m (sym (if_false _ _ miss) ∙ found))
  ]

  -- `unhook_all` drops every hook that a name holds, the ones registered later first, and leaves no
  -- name behind.
  pub unhook_all-NewestFirst :
      (r : Registry H) (m : List (ℕ × (H × ℕ))) (name : ℕ) (h : H × ℕ)
      → r.entries ≡ some m
      → find_key name m ≡ some h
      → NewestFirst ((unhook_all r).0.1)
        × In h ((unhook_all r).0.1)
        × ((unhook_all r).0.0 ≡ length ((unhook_all r).0.1))
        × ((unhook_all r).1.entries ≡ none)
        × (count (unhook_all r).1 ≡ 0)
  unfolding unhook_all dropped count get_or_insert
  unhook_all-NewestFirst r m name h whole found = (
    subst (λ e. NewestFirst (dropped e)) (sym whole) (sort_newest-NewestFirst (values m)),
    subst (λ e. In h (dropped e)) (sym whole)
        (In-sort_newest h (values m) (In-values name h m found)),
    refl,
    refl,
    refl,
  )

  taken :
      (name seq : ℕ) (e : Option (List (ℕ × (H × ℕ))))
      → (take_from name seq e).0 ≡ hook_of (find_key name (get_or_insert e))
  unfolding take_from get_or_insert hook_of
  taken name seq none = refl
  taken name seq (some m) = refl

  -- Taking a name out after it was registered gives that hook, and nothing the second time; taking
  -- another name gives the same as before the registration; and the registration gives what the name
  -- held before it.
  pub take-register :
      (name other : ℕ) (hook : H) (r : Registry H)
      → other ≢ name
      → ((take_hook name (register name hook r).1).0 ≡ some hook)
        × ((take_hook other (register name hook r).1).0 ≡ (take_hook other r).0)
        × ((register name hook r).0 ≡ (take_hook name r).0)
        × ((take_hook name (take_hook name (register name hook r).1).1).0 ≡ none)
  unfolding take_hook take_from register hook_of get_or_insert
  take-register name other hook r apart =
      let m = get_or_insert r.entries in
      (
        ap hook_of (find-insert name (hook, r.next_seq) m),
        ap hook_of
              (if_false _ _ (not_equal name other apart) ∙ find-remove_other name other m apart)
            ∙ sym (taken other r.next_seq r.entries),
        sym (taken name r.next_seq r.entries),
        ap hook_of (find-remove name (insert_key name (hook, r.next_seq) m)),
      )

  taken_twice :
      (name seq : ℕ) (e : Option (List (ℕ × (H × ℕ))))
      → (take_hook name (take_from name seq e).1).0 ≡ none
  unfolding take_hook take_from hook_of
  taken_twice name seq none = refl
  taken_twice name seq (some m) = ap hook_of (find-remove name m)

  unhook_result_cases :
      (unhooking : H → Result DetourError (Unit {0})) (hook : H)
      → ((unhooking hook ≡ ok tt) × (unhook_result unhooking (some hook) ≡ ok true))
        ⊎ ((e : DetourError) × (unhooking hook ≡ err e)
            × (unhook_result unhooking (some hook) ≡ err e))
  unfolding unhook_result
  unhook_result_cases unhooking hook = split (unhooking hook) refl
    where
      split :
          (r : Result DetourError (Unit {0}))
          → unhooking hook ≡ r
          → ((unhooking hook ≡ ok tt) × (unhook_result unhooking (some hook) ≡ ok true))
            ⊎ ((e : DetourError) × (unhooking hook ≡ err e)
                × (unhook_result unhooking (some hook) ≡ err e))
      split (ok tt) found = inl (found, rw found refl)
      split (err e) found = inr (e, found, rw found refl)

  -- After `unhook`, whether the hook could be unhooked or not, the name holds no hook. The answer is
  -- false when it held none before, true when the hook it held could be unhooked, and else the error
  -- of that hook.
  pub unhook_named_frees :
      (unhooking : H → Result DetourError (Unit {0})) (name : ℕ) (r : Registry H)
      → ((take_hook name (unhook_named unhooking name r).1).0 ≡ none)
        × (((take_hook name r).0 ≡ none) × ((unhook_named unhooking name r).0 ≡ ok false)
            ⊎ ((hook : H) × ((take_hook name r).0 ≡ some hook)
                × (((unhooking hook ≡ ok tt) × ((unhook_named unhooking name r).0 ≡ ok true))
                    ⊎ ((e : DetourError) × (unhooking hook ≡ err e)
                        × ((unhook_named unhooking name r).0 ≡ err e)))))
  unfolding unhook_named take_hook unhook_result
  unhook_named_frees unhooking name r = (
    taken_twice name r.next_seq r.entries,
    elim (Option-cases ((take_hook name r).0)) [
      | inl nothing ↦ inl (nothing, ap (unhook_result unhooking) nothing)
      | inr (hook, held) ↦
          let same = ap (unhook_result unhooking) held in
          inr (
            hook,
            held,
            elim (unhook_result_cases unhooking hook) [
              | inl (fine, answer) ↦ inl (fine, same ∙ answer)
              | inr (e, failed, answer) ↦ inr (e, failed, same ∙ answer)
            ],
          )
    ],
  )
