-- ===== src/Redirect/Undo.antt =====
-- A rollback in src/transaction.rs undoes what redirecting threads did, wherever it stopped.
use neohook.Base.{
  ℕ, ◌≡◌, refl, sym, subst, ◌⊎◌, inl, inr, Bool, true, false, ◌&&◌, List, [], ◌∷◌, All,
  if◌then◌else◌,
}
use neohook.Base.Assign.{assign, assign-back}
use neohook.Patches.{InlineData}
use neohook.Redirect.{
  Os, Machine, in_stolen, redirect_all, restore_ips, restore_words, rollback_threads,
}
use neohook.Redirect.Settled.{
  Undoable, Outside, LandsOutside, HasThread, HasSlot, TrueIps, TrueWords, Settled, Keeps-Undoable,
}
use neohook.Redirect.Steps.{redirect_all-Keeps}

restore_ip_back :
    {P : Type 0} (b : Bool) (first now : ℕ → ℕ) (k o h : ℕ)
    → (k ≡ h → b ≡ true)
    → o ≡ first k
    → (now h ≡ first h) ⊎ ((k ≡ h) ⊎ P)
    → ((if b then assign now k o else now) h ≡ first h) ⊎ P
restore_ip_back true first now k o h set same moved = assign-back first now k o h same moved
restore_ip_back false first now k o h set same (inl e) = inl e
restore_ip_back false first now k o h set same (inr (inl e)) = cc (set e)
restore_ip_back false first now k o h set same (inr (inr p)) = inr p

restore_ips-same :
    (os : Os) (records : List (ℕ × ℕ)) (first now : ℕ → ℕ) (h : ℕ)
    → os.can_get h ≡ true
    → os.can_set h ≡ true
    → TrueIps first records
    → (now h ≡ first h) ⊎ HasThread h records
    → restore_ips os records now h ≡ first h
unfolding restore_ips
restore_ips-same os [] first now h get set true_ips (inl e) = e
restore_ips-same os [] first now h get set true_ips (inr at) = absurd at
restore_ips-same os ((k, o) ∷ rest) first now h get set (same, true_ips) moved =
    restore_ips-same os rest first (if os.can_get k && os.can_set k then assign now k o else now) h
      get set true_ips
      (restore_ip_back (os.can_get k && os.can_set k) first now k o h allowed same moved)
  where
    allowed : k ≡ h → (os.can_get k && os.can_set k) ≡ true
    allowed e = subst (λ g. (os.can_get g && os.can_set g) ≡ true) (sym e) (rw (get, set) refl)

restore_words-same :
    (records : List (ℕ × (ℕ × ℕ))) (first now : ℕ → ℕ) (slot : ℕ)
    → TrueWords first records
    → (now slot ≡ first slot) ⊎ HasSlot slot records
    → restore_words records now slot ≡ first slot
unfolding restore_words
restore_words-same [] first now slot true_words (inl e) = e
restore_words-same [] first now slot true_words (inr at) = absurd at
restore_words-same ((h, (k, o)) ∷ rest) first now slot (same, true_words) moved =
    restore_words-same rest first (assign now k o) slot true_words
      (assign-back first now k o slot same moved)

pub start-Settled :
    (ds : List InlineData) (start : Machine)
    → start.redirected_threads ≡ []
    → start.redirected_stacks ≡ []
    → Settled ds start start
start-Settled ds start no_threads no_stacks = record {
  ips = subst (TrueIps start.ip) (sym no_threads) tt;
  moved_ip = λ h. inl refl;
  slots = subst (TrueWords start.words) (sym no_stacks) tt;
  moved_word = λ slot. inl refl;
}

-- A place outside of all hooks is outside of each.
pub Outside-each :
    (ds : List InlineData)
    → All (λ (d : InlineData). (addr : ℕ) → Outside ds addr → in_stolen d addr ≡ false) ds
Outside-each [] = tt
Outside-each (d ∷ ds) = (
  λ addr out. out.0,
  All-weaken (λ (e : InlineData). (addr : ℕ) → Outside ds addr → in_stolen e addr ≡ false)
      (λ (e : InlineData). (addr : ℕ) → Outside (d ∷ ds) addr → in_stolen e addr ≡ false) ds
      (λ e far addr out. far addr (out.1)) (Outside-each ds),
)
  where
    All-weaken :
        (P Q : InlineData → Type 0) (es : List InlineData)
        → ((e : InlineData) → P e → Q e)
        → All P es
        → All Q es
    All-weaken P Q [] imp all = tt
    All-weaken P Q (e ∷ es) imp (p, all) = (imp e p, All-weaken P Q es imp all)

-- What can be undone is undone by a rollback.
pub rollback_threads-Undoable :
    (later : Os) (start m : Machine) (h slot : ℕ)
    → Undoable start m
    → later.can_get h ≡ true
    → later.can_set h ≡ true
    → ((rollback_threads later m).ip h ≡ start.ip h)
      × ((rollback_threads later m).words slot ≡ start.words slot)
unfolding rollback_threads
rollback_threads-Undoable later start m h slot u get set = (
  restore_ips-same later m.redirected_threads start.ip m.ip h get set u.ips (u.moved_ip h),
  restore_words-same m.redirected_stacks start.words m.words slot u.slots (u.moved_word slot),
)

-- Let every place to which the hooks of a commit move an address lie outside of the bytes that they
-- overwrite, and let nothing be recorded yet. However far the redirecting came, with success or
-- with an error, a rollback puts the instruction pointer of every thread whose context can then be
-- read and written, and every word of the stacks, back to what it was.
pub rollback_threads-redirect_all :
    (os later : Os) (ds : List InlineData) (hs : List ℕ) (start : Machine)
    → All (LandsOutside ds) ds
    → start.redirected_threads ≡ []
    → start.redirected_stacks ≡ []
    → (h slot : ℕ) → later.can_get h ≡ true
    → later.can_set h ≡ true
    → ((rollback_threads later ((redirect_all os ds hs start).1)).ip h ≡ start.ip h)
      × ((rollback_threads later ((redirect_all os ds hs start).1)).words slot ≡ start.words slot)
rollback_threads-redirect_all os later ds hs start lands no_threads no_stacks h slot get set =
    rollback_threads-Undoable later start ((redirect_all os ds hs start).1) h slot
      (Keeps-Undoable ds start (redirect_all os ds hs start) (
        redirect_all-Keeps ds start os ds hs start lands (Outside-each ds)
          (start-Settled ds start no_threads no_stacks)))
      get set
