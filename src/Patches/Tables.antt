-- ===== src/Patches/Tables.antt =====
-- The tables of live patches, table slots and chained gateways of src/transaction.rs.
use neohook.Base.{
  ℕ, zero, suc, ◌+◌, ◌-◌, ◌^◌, ◌≤◌, ◌<◌, ◌≡◌, ◌≢◌, ◌⊎◌, ◌↔◌, refl, ltb, if_true, if_false, sym, ap,
  ◌∙◌, Bool, true, false, not, Option, none, some, List, inl, inr, Bool-cases, ◌==◌, if◌then◌else◌,
  arith, max,
}
use neohook.Base.Maps.{
  member, find_key, insert_key, find-insert, find-remove, find-remove_other, member-erase,
}
use neohook.Patches.{
  LivePatches, live_patch_starts_at, unregister_live_patch, ranges_overlap, claim_table_slot,
  release_table_slot, ChainedGateway, Chained, add_dependent, drop_dependent, orphan_entry, is_none,
  add_gateway_dependent, remove_gateway_dependent, is_chained_gateway, orphan_chained_gateway,
}

-- Two ranges that do not reach the last address overlap exactly when a byte lies in both.
pub ranges_overlap_iff :
    (a a_len b b_len : ℕ)
    → 0 < a_len
    → 0 < b_len
    → a + a_len < 2 ^ 64
    → b + b_len < 2 ^ 64
    → (ranges_overlap a a_len b b_len ≡ true)
      ↔ ((x : ℕ) × (a ≤ x) × (x < a + a_len) × (b ≤ x) × (x < b + b_len))
unfolding ranges_overlap
ranges_overlap_iff a a_len b b_len ha hb ea eb = (
  λ h. (max a b, ground arith, ground arith, ground arith, ground arith),
  λ (x, h1, h2, h3, h4). ground arith,
)

-- A slot that was claimed is refused to a second hook, and free again once it is released.
slot_owned_once :
    (slot : ℕ) (slots : List ℕ)
    → (claim_table_slot slot slots).0 ≡ true
    → ((claim_table_slot slot (claim_table_slot slot slots).1).0 ≡ false)
      × ((claim_table_slot slot (release_table_slot slot (claim_table_slot slot slots).1)).0 ≡ true)
unfolding claim_table_slot release_table_slot
slot_owned_once slot slots h = ground (arith, member-erase slot slots)

pub add_times : ℕ → ℕ → Chained → Chained
add_times zero gateway m = m
add_times (suc n) gateway m = add_gateway_dependent gateway (add_times n gateway m)

pub remove_times : ℕ → ℕ → Chained → Chained
remove_times zero gateway m = m
remove_times (suc n) gateway m = remove_times n gateway (remove_gateway_dependent gateway m).1

module _ (gateway : ℕ) where
  abbrev entry_of : ℕ → Option (ℕ × ℕ) → Option ChainedGateway
  entry_of n o = some (record { dependents = n; orphan = o })

  find-add :
      (m : Chained)
      → find_key gateway (add_gateway_dependent gateway m)
        ≡ some (add_dependent (find_key gateway m))
  unfolding add_gateway_dependent
  find-add m = find-insert gateway _ m

  find-add_times :
      (n : ℕ) (m : Chained)
      → find_key gateway m ≡ none
      → find_key gateway (add_times (suc n) gateway m) ≡ entry_of (suc n) none
  unfolding add_times add_dependent
  find-add_times zero m h = find-add m ∙ ap (λ e. some (add_dependent e)) h
  find-add_times (suc n) m h =
      find-add (add_times (suc n) gateway m)
      ∙ ap (λ e. some (add_dependent e)) (find-add_times n m h)
      ∙ ap (λ k. entry_of k none) (omega arith)

  orphan-entry_of :
      (n size : ℕ) (m : Chained)
      → orphan_entry (entry_of (suc n) none) gateway size m ≡ (
        true,
        insert_key gateway (record { dependents = suc n; orphan = some (gateway, size) }) m,
      )
  unfolding orphan_entry
  orphan-entry_of n size m = ground arith

  drop-entry_of :
      (n : ℕ) (t : ℕ × ℕ) (m : Chained)
      → drop_dependent (entry_of (suc (suc n)) (some t)) gateway m
        ≡ ((false, none), insert_key gateway (record { dependents = suc n; orphan = some t }) m)
  unfolding drop_dependent is_none
  drop-entry_of n t m = ground arith

  find-orphan :
      (n size : ℕ) (m : Chained)
      → find_key gateway m ≡ entry_of (suc n) none
      → ((orphan_chained_gateway gateway size m).0 ≡ true)
        × (find_key gateway (orphan_chained_gateway gateway size m).1
            ≡ entry_of (suc n) (some (gateway, size)))
  unfolding orphan_chained_gateway
  find-orphan n size m h =
      let step = ap (λ e. orphan_entry e gateway size m) h ∙ orphan-entry_of n size m in
      (ap (λ p. p.0) step, ap (λ p. find_key gateway p.1) step ∙ find-insert gateway _ m)

  -- A removal that is not the last hands nothing out.
  remove_early :
      (n : ℕ) (t : ℕ × ℕ) (m : Chained)
      → find_key gateway m ≡ entry_of (suc (suc n)) (some t)
      → ((remove_gateway_dependent gateway m).0 ≡ (false, none))
        × (find_key gateway (remove_gateway_dependent gateway m).1 ≡ entry_of (suc n) (some t))
  unfolding remove_gateway_dependent
  remove_early n t m h =
      let step = ap (λ e. drop_dependent e gateway m) h ∙ drop-entry_of n t m in
      (ap (λ p. p.0) step, ap (λ p. find_key gateway p.1) step ∙ find-insert gateway _ m)

  remove_last :
      (t : ℕ × ℕ) (m : Chained)
      → find_key gateway m ≡ entry_of 1 (some t)
      → ((remove_gateway_dependent gateway m).0 ≡ (false, some t))
        × (find_key gateway (remove_gateway_dependent gateway m).1 ≡ none)
  unfolding remove_gateway_dependent drop_dependent is_none
  remove_last t m h = (
    ap (λ e. (drop_dependent e gateway m).0) h,
    ap (λ e. find_key gateway (drop_dependent e gateway m).1) h ∙ find-remove gateway m,
  )

  find-remove_times :
      (k n : ℕ) (t : ℕ × ℕ) (m : Chained)
      → k ≤ n
      → find_key gateway m ≡ entry_of (suc n) (some t)
      → find_key gateway (remove_times k gateway m) ≡ entry_of (suc (n - k)) (some t)
  unfolding remove_times
  find-remove_times zero n t m le h = h ∙ ap (λ j. entry_of (suc j) (some t)) (omega arith)
  find-remove_times (suc k) zero t m le h = absurd (omega arith)
  find-remove_times (suc k) (suc n) t m le h =
      let (out, found) = remove_early n t m h in
      find-remove_times k n t _ (omega arith) found
      ∙ ap (λ j. entry_of (suc j) (some t)) (omega arith)

  not_chained : (m : Chained) → find_key gateway m ≡ none → is_chained_gateway gateway m ≡ false
  unfolding is_chained_gateway
  not_chained m e = ap (λ o. elim o [ none ↦ false | some entry ↦ true ]) e

  still_chained :
      (m : Chained) (c : ChainedGateway)
      → find_key gateway m ≡ some c
      → is_chained_gateway gateway m ≡ true
  unfolding is_chained_gateway
  still_chained m c e = ap (λ o. elim o [ none ↦ false | some entry ↦ true ]) e

  -- The release after `k` others hands the trampoline out exactly when it is the last.
  remove-Released :
      (n k : ℕ) (t : ℕ × ℕ) (m : Chained)
      → k ≤ n
      → find_key gateway m ≡ entry_of (suc n) (some t)
      → let (answer, left) = remove_gateway_dependent gateway (remove_times k gateway m) in
        (answer ≡ (false, if k == n then some t else none))
        × (is_chained_gateway gateway left ≡ not (k == n))
  remove-Released n k t m le found =
      let before = find-remove_times k n t m le found in
      let rest = remove_times k gateway m in
      elim (Bool-cases (k == n)) [
        | inl last ↦
            let (out, gone) =
              remove_last t rest
                (before ∙ ap (λ j. entry_of (suc j) (some t)) (zero_left k n last)) in
            (
              out ∙ ap (λ b. (false, if b then some t else none)) (sym last),
              not_chained _ gone ∙ ap not (sym last),
            )
        | inr other ↦
            let (out, kept) =
              remove_early (n - k - 1) t rest
                (before ∙ ap (λ j. entry_of (suc j) (some t)) (some_left k n le other)) in
            (
              out ∙ ap (λ b. (false, if b then some t else none)) (sym other),
              still_chained _ _ kept ∙ ap not (sym other),
            )
      ]
    where
      zero_left : (k n : ℕ) → (k == n) ≡ true → n - k ≡ 0
      zero_left k n e = ground arith

      some_left : (k n : ℕ) → k ≤ n → (k == n) ≡ false → n - k ≡ suc (n - k - 1)
      some_left k n le e = ground arith

  -- After `n + 1` hooks were chained on a gateway that had none and the gateway's owner was dropped,
  -- the trampoline is taken over. Of the `n + 1` releases that follow, the one after `k` others hands
  -- the trampoline out for retiring and forgets the gateway if it is the last, and hands nothing out
  -- and leaves the gateway chained if it is not; none reports the owner as alive.
  pub orphan_retired_once :
      (n size k : ℕ) (m : Chained)
      → find_key gateway m ≡ none
      → k ≤ n
      → let (taken, dropped) = orphan_chained_gateway gateway size (add_times (suc n) gateway m) in
        let (answer, left) = remove_gateway_dependent gateway (remove_times k gateway dropped) in
        (taken ≡ true)
        × (answer ≡ (false, if k == n then some (gateway, size) else none))
        × (is_chained_gateway gateway left ≡ not (k == n))
  orphan_retired_once n size k m fresh le =
      let (taken, found) =
        find-orphan n size (add_times (suc n) gateway m) (find-add_times n m fresh) in
      let (answer, chained) = remove-Released n k (gateway, size) _ le found in
      (taken, answer, chained)

-- No hook is chained on a gateway with such an entry.
abbrev pub HasNone : Option ChainedGateway → Type 0
HasNone o = (o ≡ none) ⊎ ((entry : ChainedGateway) × (o ≡ some entry) × (entry.dependents ≡ 0))

-- A gateway is taken over exactly when hooks are chained on it, which then own its memory.
pub orphan_cases :
    (gateway size : ℕ) (m : Chained)
    → let (taken, left) = orphan_chained_gateway gateway size m in
      ((entry : ChainedGateway) × (find_key gateway m ≡ some entry)
        × (0 < entry.dependents)
        × (taken ≡ true)
        × (find_key gateway left
            ≡ some (record { dependents = entry.dependents; orphan = some (gateway, size) })))
      ⊎ (HasNone (find_key gateway m) × (taken ≡ false))
unfolding orphan_chained_gateway orphan_entry
orphan_cases gateway size m = split (find_key gateway m) refl
  where
    split :
        (o : Option ChainedGateway)
        → find_key gateway m ≡ o
        → let (taken, left) = orphan_entry o gateway size m in
          ((entry : ChainedGateway) × (o ≡ some entry)
            × (0 < entry.dependents)
            × (taken ≡ true)
            × (find_key gateway left
                ≡ some (record { dependents = entry.dependents; orphan = some (gateway, size) })))
          ⊎ (HasNone o × (taken ≡ false))
    split none found = inr (inl refl, refl)
    split (some entry) found = elim (Bool-cases (ltb 0 entry.dependents)) [
      | inl some_left ↦ inl (
        entry,
        refl,
        ground arith,
        ap (λ (r : Bool × Chained). r.0) (if_true _ _ some_left),
        ap (λ (r : Bool × Chained). find_key gateway r.1) (if_true _ _ some_left)
            ∙ find-insert gateway _ m,
      )
      | inr none_left ↦ inr (
        inr (entry, refl, ground arith),
        ap (λ (r : Bool × Chained). r.0) (if_false _ _ none_left),
      )
    ]

insert_other :
    (k i : ℕ) (entry : ChainedGateway) (m : Chained)
    → i ≢ k
    → find_key i (insert_key k entry m) ≡ find_key i m
insert_other k i entry m apart =
    if_false {b = k == i} _ _ (ground arith) ∙ find-remove_other k i m apart

-- Releasing a hook on one gateway leaves the entry of another.
pub find-remove_dependent_other :
    (gateway other : ℕ) (m : Chained)
    → other ≢ gateway
    → find_key other (remove_gateway_dependent gateway m).1 ≡ find_key other m
unfolding remove_gateway_dependent drop_dependent
find-remove_dependent_other gateway other m apart = split (find_key gateway m)
  where
    split :
        (o : Option ChainedGateway)
        → find_key other (drop_dependent o gateway m).1 ≡ find_key other m
    split none = refl
    split (some entry) = elim (Bool-cases (ltb 0 (entry.dependents - 1))) [
      | inl more ↦
          ap (λ (r : (Bool × Option (ℕ × ℕ)) × Chained). find_key other r.1) (if_true _ _ more)
          ∙ insert_other gateway other _ m apart
      | inr last ↦
          ap (λ (r : (Bool × Option (ℕ × ℕ)) × Chained). find_key other r.1) (if_false _ _ last)
          ∙ find-remove_other gateway other m apart
    ]

pub starts_at-unregister :
    (target : ℕ) (patches : LivePatches)
    → live_patch_starts_at (unregister_live_patch target patches) target ≡ false
unfolding live_patch_starts_at unregister_live_patch
starts_at-unregister target patches =
    ap (λ o. elim o [ none ↦ false | some len ↦ true ]) (find-remove target patches)

pub member-release :
    (slot : ℕ) (slots : List ℕ) → member slot (release_table_slot slot slots) ≡ false
unfolding release_table_slot
member-release slot slots = member-erase slot slots
