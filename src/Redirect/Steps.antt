-- ===== src/Redirect/Steps.antt =====
-- src/transaction.rs: every step that redirects threads can be undone, wherever it stops.
use neohook.Base.{
  ℕ, zero, suc, ◌+◌, ◌≡◌, refl, sym, subst, ◌∙◌, inl, inr, true, false, ◌||◌, not, ◌*◌, Option,
  none, some, List, [], ◌∷◌, All, length, leb, ◌==◌, Bool-cases, Option-cases, if◌then◌else◌,
  if_false,
}
use neohook.Base.Errors.{DetourError, relocation_failed}
use neohook.Base.Results.{Result, ok, err}
use neohook.Base.Regions.{Region}
use neohook.Base.Words.{usize_mod, saturating_add}
use neohook.Base.Assign.{assign}
use neohook.Patches.{InlineData}
use neohook.Redirect.{
  Os, Machine, in_stolen, map_redirect_address_exact, Outcome, move_ip, redirect_ip, move_slot,
  redirect_slot, and_then, scan_slots, scan_region, scan_stack, scan_from, next_multiple_of_8,
  is_readable, slots_in, redirect_stack, redirect_rip_relative_threads, redirect_threads,
  redirect_all,
}
use neohook.Redirect.Settled.{
  Outside, LandsOutside, Settled, Keeps, going, stopped, refused, recorded_ip, recorded_ip-Undoable,
  assigned_ip-Settled, assigned_word-Settled, and_then-Keeps, if-Keeps, not_moved_ip,
  not_moved_word,
}

stolen_of_map :
    (d : InlineData) (addr goal : ℕ)
    → map_redirect_address_exact d addr ≡ ok (some goal)
    → in_stolen d addr ≡ true
unfolding map_redirect_address_exact
stolen_of_map d addr goal e = elim (Bool-cases (in_stolen d addr)) [
  | inl inside ↦ inside
  | inr outside ↦ absurd (ok_none (sym (if_false _ _ outside) ∙ e))
]
  where
    ok_none : ◌≡◌ {A = Result DetourError (Option ℕ)} (ok none) (ok (some goal)) → ⊥
    ok_none p = cc

module _ (ds : List InlineData) (start : Machine) where
  module _ (os : Os) (d : InlineData) (lands : LandsOutside ds d)
      (apart : (addr : ℕ) → Outside ds addr → in_stolen d addr ≡ false) where
    move_ip-Keeps :
        (h : ℕ) (m : Machine) (r : Result DetourError (Option ℕ))
        → Settled ds start m
        → map_redirect_address_exact d (m.ip h) ≡ r
        → in_stolen d (m.ip h) ≡ true
        → Keeps ds start (move_ip os h m r)
    unfolding move_ip
    move_ip-Keeps h m (err e) s found inside = refused ds start m e s
    move_ip-Keeps h m (ok none) s found inside = refused ds start m relocation_failed s
    move_ip-Keeps h m (ok (some goal)) s found inside =
        let same = not_moved_ip ds start d h m apart s inside in
        let recorded = recorded_ip ds start h m in
        let after = record recorded { ip = assign m.ip h goal } in
        if-Keeps ds start (leb m.thread_capacity (length m.redirected_threads))
          (err relocation_failed, m)
          (if os.can_set h then (ok tt, after) else (err relocation_failed, recorded))
          (λ full. refused ds start m relocation_failed s)
          (λ room.
            if-Keeps ds start (os.can_set h) (ok tt, after) (err relocation_failed, recorded)
              (λ set.
                going ds start after
                  (assigned_ip-Settled ds start h goal m s same (lands (m.ip h) goal found)))
              (λ kept.
                stopped ds start recorded relocation_failed
                  (recorded_ip-Undoable ds start h m s same)))

    redirect_ip-Keeps :
        (h : ℕ) (m : Machine) → Settled ds start m → Keeps ds start (redirect_ip os d h m)
    unfolding redirect_ip
    redirect_ip-Keeps h m s =
        if-Keeps ds start _ _ _
          (λ inside. move_ip-Keeps h m (map_redirect_address_exact d (m.ip h)) s refl inside)
          (λ outside. going ds start m s)

    move_slot-Keeps :
        (h slot : ℕ) (m : Machine) (r : Result DetourError (Option ℕ))
        → Settled ds start m
        → map_redirect_address_exact d (m.words slot) ≡ r
        → Keeps ds start (move_slot h slot m r)
    unfolding move_slot
    move_slot-Keeps h slot m (err e) s found = refused ds start m e s
    move_slot-Keeps h slot m (ok none) s found = going ds start m s
    move_slot-Keeps h slot m (ok (some goal)) s found =
        let inside = stolen_of_map d (m.words slot) goal found in
        if-Keeps ds start _ _ _ (λ full. refused ds start m relocation_failed s)
          (λ room. going ds start _ (
            assigned_word-Settled ds start h slot goal m s
              (not_moved_word ds start d slot m apart s inside) (lands (m.words slot) goal found)))

    redirect_slot-Keeps :
        (h slot : ℕ) (m : Machine)
        → Settled ds start m
        → Keeps ds start (redirect_slot os d h slot m)
    unfolding redirect_slot
    redirect_slot-Keeps h slot m s =
        if-Keeps ds start _ _ _
          (λ inside. move_slot-Keeps h slot m (map_redirect_address_exact d (m.words slot)) s refl)
          (λ outside. going ds start m s)

    scan_slots-Keeps :
        (h rounds slot scanned : ℕ) (m : Machine)
        → Settled ds start m
        → Keeps ds start (scan_slots os d h rounds slot scanned m)
    unfolding scan_slots
    scan_slots-Keeps h zero slot scanned m s = going ds start m s
    scan_slots-Keeps h (suc rounds) slot scanned m s =
        if-Keeps ds start _ _ _ (λ deep. refused ds start m relocation_failed s)
          (λ go_on.
            and_then-Keeps ds start (redirect_slot os d h slot m)
              (scan_slots os d h rounds (slot + 8) (scanned + 8)) (redirect_slot-Keeps h slot m s)
              (λ after t. scan_slots-Keeps h rounds (slot + 8) (scanned + 8) after t))

    scan_region-Keeps :
        (h : ℕ) (go_on : ℕ → ℕ → Machine → Outcome) (allocation region scanned : ℕ) (m : Machine)
        (r : Option Region)
        → ((next bytes : ℕ) (after : Machine)
            → Settled ds start after
            → Keeps ds start (go_on next bytes after))
        → Settled ds start m
        → Keeps ds start (scan_region os d h go_on allocation region scanned m r)
    unfolding scan_region
    scan_region-Keeps h go_on allocation region scanned m none later s = going ds start m s
    scan_region-Keeps h go_on allocation region scanned m (some r) later s =
        let region_end = saturating_add r.base r.size in
        let slot = next_multiple_of_8 region in
        let slots = if is_readable r then slots_in slot region_end else 0 in
        let scanned_slots = scan_slots os d h slots slot scanned m in
        let next = go_on region_end (scanned + slots * 8) in
        if-Keeps ds start (not (r.allocation == allocation) || leb region_end region) (ok tt, m)
          (and_then scanned_slots next) (λ past. going ds start m s)
          (λ within.
            and_then-Keeps ds start scanned_slots next (scan_slots-Keeps h slots slot scanned m s)
              (later region_end (scanned + slots * 8)))

    scan_stack-Keeps :
        (h fuel allocation region scanned : ℕ) (m : Machine)
        → Settled ds start m
        → Keeps ds start (scan_stack os d h fuel allocation region scanned m)
    unfolding scan_stack
    scan_stack-Keeps h zero allocation region scanned m s = going ds start m s
    scan_stack-Keeps h (suc fuel) allocation region scanned m s =
        scan_region-Keeps h (scan_stack os d h fuel allocation) allocation region scanned m
          (os.query region) (scan_stack-Keeps h fuel allocation) s

    redirect_stack-Keeps :
        (h : ℕ) (m : Machine) → Settled ds start m → Keeps ds start (redirect_stack os d h m)
    unfolding redirect_stack scan_from
    redirect_stack-Keeps h m s = elim (Option-cases (os.query (m.sp h))) [
      | inl nothing ↦
          subst (λ q. Keeps ds start (scan_from os d h m q)) (sym nothing) (going ds start m s)
      | inr (r, found) ↦
          subst (λ q. Keeps ds start (scan_from os d h m q)) (sym found)
            (scan_stack-Keeps h usize_mod r.allocation (m.sp h) 0 m s)
    ]

    redirect_thread-Keeps :
        (h : ℕ) (m : Machine)
        → Settled ds start m
        → Keeps ds start (redirect_rip_relative_threads os d h m)
    unfolding redirect_rip_relative_threads
    redirect_thread-Keeps h m s =
        if-Keeps ds start _ _ _
          (λ known.
            and_then-Keeps ds start (redirect_ip os d h m) (redirect_stack os d h)
              (redirect_ip-Keeps h m s) (λ after t. redirect_stack-Keeps h after t))
          (λ skipped. going ds start m s)

    pub redirect_threads-Keeps :
        (hs : List ℕ) (m : Machine)
        → Settled ds start m
        → Keeps ds start (redirect_threads os d hs m)
    unfolding redirect_threads
    redirect_threads-Keeps [] m s = going ds start m s
    redirect_threads-Keeps (h ∷ hs) m s =
        and_then-Keeps ds start (redirect_rip_relative_threads os d h m) (redirect_threads os d hs)
          (redirect_thread-Keeps h m s) (λ after t. redirect_threads-Keeps hs after t)

  pub redirect_all-Keeps :
      (os : Os) (es : List InlineData) (hs : List ℕ) (m : Machine)
      → All (LandsOutside ds) es
      → All (λ (d : InlineData). (addr : ℕ) → Outside ds addr → in_stolen d addr ≡ false) es
      → Settled ds start m
      → Keeps ds start (redirect_all os es hs m)
  unfolding redirect_all
  redirect_all-Keeps os [] hs m lands apart s = going ds start m s
  redirect_all-Keeps os (d ∷ es) hs m (land, lands) (far, apart) s =
      and_then-Keeps ds start (redirect_threads os d hs m) (redirect_all os es hs)
        (redirect_threads-Keeps os d land far hs m s)
        (λ after t. redirect_all-Keeps os es hs after lands apart t)
