-- ===== src/Redirect/Settled.antt =====
-- src/transaction.rs: what holds between two steps that redirect threads, and after a failed one.
use neohook.Base.{
  ℕ, ◌≡◌, refl, sym, subst, ◌∙◌, ◌⊎◌, inl, inr, Bool, true, false, some, List, [], ◌∷◌, ◌++◌, All,
  ◌==◌, Bool-cases, if◌then◌else◌, if_true, if_false, arith,
}
use neohook.Base.Errors.{DetourError}
use neohook.Base.Results.{ok, err}
use neohook.Base.Assign.{assign}
use neohook.Patches.{InlineData}
use neohook.Redirect.{Machine, in_stolen, map_redirect_address_exact, Outcome, and_then}

-- No hook of the commit overwrites this address.
abbrev pub Outside : List InlineData → ℕ → Type 0
Outside ds addr = All (λ (d : InlineData). in_stolen d addr ≡ false) ds

-- The places to which a hook moves addresses are overwritten by no hook of the commit.
abbrev pub LandsOutside : List InlineData → InlineData → Type 0
LandsOutside ds d =
    (addr goal : ℕ) → map_redirect_address_exact d addr ≡ ok (some goal) → Outside ds goal

abbrev pub HasThread : ℕ → List (ℕ × ℕ) → Type 0
HasThread h [] = ⊥
HasThread h ((k, o) ∷ rest) = (k ≡ h) ⊎ HasThread h rest

abbrev pub HasSlot : ℕ → List (ℕ × (ℕ × ℕ)) → Type 0
HasSlot slot [] = ⊥
HasSlot slot ((h, (k, o)) ∷ rest) = (k ≡ slot) ⊎ HasSlot slot rest

All-snoc {ℓ} :
    {A : Type ℓ} (P : A → Type 0) (xs : List A) (x : A) → All P xs → P x → All P (xs ++ x ∷ [])
All-snoc P [] x all p = (p, tt)
All-snoc P (y ∷ ys) x (q, all) p = (q, All-snoc P ys x all p)

HasThread-snoc :
    (h k o : ℕ) (xs : List (ℕ × ℕ)) → HasThread h xs ⊎ (k ≡ h) → HasThread h (xs ++ (k, o) ∷ [])
HasThread-snoc h k o [] (inl none_here) = absurd none_here
HasThread-snoc h k o [] (inr e) = inl e
HasThread-snoc h k o ((j, p) ∷ xs) (inl (inl e)) = inl e
HasThread-snoc h k o ((j, p) ∷ xs) (inl (inr at)) = inr (HasThread-snoc h k o xs (inl at))
HasThread-snoc h k o ((j, p) ∷ xs) (inr e) = inr (HasThread-snoc h k o xs (inr e))

HasSlot-snoc :
    (slot h k o : ℕ) (xs : List (ℕ × (ℕ × ℕ)))
    → HasSlot slot xs ⊎ (k ≡ slot)
    → HasSlot slot (xs ++ (h, (k, o)) ∷ [])
HasSlot-snoc slot h k o [] (inl none_here) = absurd none_here
HasSlot-snoc slot h k o [] (inr e) = inl e
HasSlot-snoc slot h k o ((g, (j, p)) ∷ xs) (inl (inl e)) = inl e
HasSlot-snoc slot h k o ((g, (j, p)) ∷ xs) (inl (inr at)) =
    inr (HasSlot-snoc slot h k o xs (inl at))
HasSlot-snoc slot h k o ((g, (j, p)) ∷ xs) (inr e) = inr (HasSlot-snoc slot h k o xs (inr e))

-- What every record says is the place at the start.
abbrev pub TrueIps : (ℕ → ℕ) → List (ℕ × ℕ) → Type 0
TrueIps ip records = All (λ (r : ℕ × ℕ). r.1 ≡ ip (r.0)) records

abbrev pub TrueWords : (ℕ → ℕ) → List (ℕ × (ℕ × ℕ)) → Type 0
TrueWords words records = All (λ (r : ℕ × (ℕ × ℕ)). r.1.1 ≡ words (r.1.0)) records

-- Enough for a rollback: what changed is recorded, with what stood there at the start.
pub record Undoable (start m : Machine) : Type 0 where
  pub ips : TrueIps start.ip m.redirected_threads
  pub moved_ip : (h : ℕ) → (m.ip h ≡ start.ip h) ⊎ HasThread h m.redirected_threads
  pub slots : TrueWords start.words m.redirected_stacks
  pub moved_word : (slot : ℕ) → (m.words slot ≡ start.words slot) ⊎ HasSlot slot m.redirected_stacks

-- Between two steps, what changed also lies outside of all that the commit overwrites.
pub record Settled (ds : List InlineData) (start m : Machine) : Type 0 where
  pub ips : TrueIps start.ip m.redirected_threads
  pub moved_ip :
      (h : ℕ) → (m.ip h ≡ start.ip h) ⊎ (HasThread h m.redirected_threads × Outside ds (m.ip h))
  pub slots : TrueWords start.words m.redirected_stacks
  pub moved_word :
      (slot : ℕ)
      → (m.words slot ≡ start.words slot)
        ⊎ (HasSlot slot m.redirected_stacks × Outside ds (m.words slot))

left_of {ℓ κ ι} : {A : Type ℓ} {B : Type κ} {C : Type ι} → A ⊎ (B × C) → A ⊎ B
left_of (inl a) = inl a
left_of (inr (b, c)) = inr b

pub Settled-Undoable :
    (ds : List InlineData) (start m : Machine) → Settled ds start m → Undoable start m
Settled-Undoable ds start m s = record {
  ips = s.ips;
  moved_ip = λ h. left_of (s.moved_ip h);
  slots = s.slots;
  moved_word = λ slot. left_of (s.moved_word slot);
}

-- What a step leaves: all is settled after a success, and can be undone after a failure.
unfoldable pub Keeps : List InlineData → Machine → Outcome → Type 0
Keeps ds start (ok done, m) = Settled ds start m
Keeps ds start (err e, m) = Undoable start m

pub going :
    (ds : List InlineData) (start m : Machine) → Settled ds start m → Keeps ds start (ok tt, m)
unfolding Keeps
going ds start m s = s

pub stopped :
    (ds : List InlineData) (start m : Machine) (e : DetourError)
    → Undoable start m
    → Keeps ds start (err e, m)
unfolding Keeps
stopped ds start m e u = u

-- A step that fails before it changes anything.
pub refused :
    (ds : List InlineData) (start m : Machine) (e : DetourError)
    → Settled ds start m
    → Keeps ds start (err e, m)
refused ds start m e s = stopped ds start m e (Settled-Undoable ds start m s)

pub Keeps-Undoable :
    (ds : List InlineData) (start : Machine) (o : Outcome) → Keeps ds start o → Undoable start (o.1)
unfolding Keeps
Keeps-Undoable ds start (ok done, m) s = Settled-Undoable ds start m s
Keeps-Undoable ds start (err e, m) s = s

module _ (ds : List InlineData) (start : Machine) where
  -- A place in the way of a hook is still the one of the start.
  pub not_moved_ip :
      (d : InlineData) (h : ℕ) (m : Machine)
      → ((addr : ℕ) → Outside ds addr → in_stolen d addr ≡ false)
      → Settled ds start m
      → in_stolen d (m.ip h) ≡ true
      → m.ip h ≡ start.ip h
  not_moved_ip d h m apart s inside = elim (s.moved_ip h) [
    | inl same ↦ same
    | inr (has, out) ↦ cc (inside, apart (m.ip h) out)
  ]

  pub not_moved_word :
      (d : InlineData) (slot : ℕ) (m : Machine)
      → ((addr : ℕ) → Outside ds addr → in_stolen d addr ≡ false)
      → Settled ds start m
      → in_stolen d (m.words slot) ≡ true
      → m.words slot ≡ start.words slot
  not_moved_word d slot m apart s inside = elim (s.moved_word slot) [
    | inl same ↦ same
    | inr (has, out) ↦ cc (inside, apart (m.words slot) out)
  ]

  -- The record of a thread that is about to be moved.
  abbrev pub recorded_ip : ℕ → Machine → Machine
  recorded_ip h m = record m { redirected_threads = m.redirected_threads ++ (h, m.ip h) ∷ [] }

  pub recorded_ip-Undoable :
      (h : ℕ) (m : Machine)
      → Settled ds start m
      → m.ip h ≡ start.ip h
      → Undoable start (recorded_ip h m)
  recorded_ip-Undoable h m s same = record {
    ips =
        All-snoc (λ (r : ℕ × ℕ). r.1 ≡ start.ip (r.0)) m.redirected_threads (h, m.ip h) s.ips same;
    moved_ip = λ g. elim (s.moved_ip g) [
      | inl e ↦ inl e
      | inr (has, out) ↦ inr (HasThread-snoc g h (m.ip h) m.redirected_threads (inl has))
    ];
    slots = s.slots;
    moved_word = λ slot. left_of (s.moved_word slot);
  }

  pub assigned_ip-Settled :
      (h goal : ℕ) (m : Machine)
      → Settled ds start m
      → m.ip h ≡ start.ip h
      → Outside ds goal
      → Settled ds start (record (recorded_ip h m) { ip = assign m.ip h goal })
  assigned_ip-Settled h goal m s same out = record {
    ips =
        All-snoc (λ (r : ℕ × ℕ). r.1 ≡ start.ip (r.0)) m.redirected_threads (h, m.ip h) s.ips same;
    moved_ip = λ g. elim (Bool-cases (g == h)) [
      | inl here ↦ inr (
        HasThread-snoc g h (m.ip h) m.redirected_threads (inr (ground arith)),
        subst (λ a. Outside ds a) (sym (if_true _ _ here)) out,
      )
      | inr apart ↦ elim (s.moved_ip g) [
        | inl e ↦ inl (if_false _ _ apart ∙ e)
        | inr (has, outside) ↦ inr (
          HasThread-snoc g h (m.ip h) m.redirected_threads (inl has),
          subst (λ a. Outside ds a) (sym (if_false _ _ apart)) outside,
        )
      ]
    ];
    slots = s.slots;
    moved_word = s.moved_word;
  }

  pub assigned_word-Settled :
      (h slot goal : ℕ) (m : Machine)
      → Settled ds start m
      → m.words slot ≡ start.words slot
      → Outside ds goal
      → Settled ds start (record m {
        redirected_stacks = m.redirected_stacks ++ (h, (slot, m.words slot)) ∷ [];
        words = assign m.words slot goal;
      })
  assigned_word-Settled h slot goal m s same out = record {
    ips = s.ips;
    moved_ip = s.moved_ip;
    slots =
        All-snoc (λ (r : ℕ × (ℕ × ℕ)). r.1.1 ≡ start.words (r.1.0)) m.redirected_stacks
          (h, (slot, m.words slot)) s.slots same;
    moved_word = λ g. elim (Bool-cases (g == slot)) [
      | inl here ↦ inr (
        HasSlot-snoc g h slot (m.words slot) m.redirected_stacks (inr (ground arith)),
        subst (λ a. Outside ds a) (sym (if_true _ _ here)) out,
      )
      | inr apart ↦ elim (s.moved_word g) [
        | inl e ↦ inl (if_false _ _ apart ∙ e)
        | inr (has, outside) ↦ inr (
          HasSlot-snoc g h slot (m.words slot) m.redirected_stacks (inl has),
          subst (λ a. Outside ds a) (sym (if_false _ _ apart)) outside,
        )
      ]
    ];
  }

  pub and_then-Keeps :
      (o : Outcome) (next : Machine → Outcome)
      → Keeps ds start o
      → ((m : Machine) → Settled ds start m → Keeps ds start (next m))
      → Keeps ds start (and_then o next)
  unfolding and_then Keeps
  and_then-Keeps (ok done, m) next s go_on = go_on m s
  and_then-Keeps (err e, m) next s go_on = s

  pub if-Keeps :
      (b : Bool) (o q : Outcome)
      → (b ≡ true → Keeps ds start o)
      → (b ≡ false → Keeps ds start q)
      → Keeps ds start (if b then o else q)
  if-Keeps true o q yes_case no_case = yes_case refl
  if-Keeps false o q yes_case no_case = no_case refl
