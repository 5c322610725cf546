-- ===== src/Commit/Threads/Balance.antt =====
-- src/transaction.rs: each tracked thread is resumed as often as it was suspended, and its handle is
-- closed once.
use neohook.Base.{
  ℕ, zero, suc, ◌+◌, ◌-◌, ◌≤◌, ◌≡◌, refl, sym, ap, subst, ◌∙◌, inl, inr, Bool, true, false, none,
  some, List, [], ◌∷◌, ◌++◌, length, get_elem?, ◌==◌, if◌then◌else◌, if_true, if_false, Bool-cases,
  arith,
}
use neohook.Commit.Threads.{
  Window, last_of, all_but_last, last_to_front, swap_remove, suspend_one, resume_one, suspend_at,
  suspend_from, suspend_threads, resume_each, resume_threads, cleanup_threads,
}

abbrev pub occurs : ℕ → List ℕ → ℕ
occurs h [] = 0
occurs h (x ∷ xs) = (if h == x then 1 else 0) + occurs h xs

occurs-append : (h : ℕ) (xs ys : List ℕ) → occurs h (xs ++ ys) ≡ occurs h xs + occurs h ys
occurs-append h [] ys = omega arith
occurs-append h (x ∷ xs) ys = omega (arith, occurs-append h xs ys)

occurs_rotated :
    (h y : ℕ) (ys : List ℕ) → occurs h (last_of y ys ∷ all_but_last y ys) ≡ occurs h (y ∷ ys)
occurs_rotated h y [] = refl
occurs_rotated h y (z ∷ zs) = omega (arith, occurs_rotated h z zs)

occurs-last_to_front :
    (h x : ℕ) (xs : List ℕ)
    → occurs h (last_to_front (x ∷ xs)) + (if h == x then 1 else 0) ≡ occurs h (x ∷ xs)
occurs-last_to_front h x [] = omega arith
occurs-last_to_front h x (y ∷ ys) = omega (arith, occurs_rotated h y ys)

length-all_but_last : (y : ℕ) (ys : List ℕ) → length (all_but_last y ys) ≡ length ys
length-all_but_last y [] = refl
length-all_but_last y (z ∷ zs) = ap suc (length-all_but_last z zs)

length-last_to_front : (x : ℕ) (xs : List ℕ) → length (last_to_front (x ∷ xs)) ≡ length xs
length-last_to_front x [] = refl
length-last_to_front x (y ∷ ys) = ap suc (length-all_but_last y ys)

get_none : (xs : List ℕ) → get_elem? (xs ++ []) (length xs) ≡ none
get_none [] = refl
get_none (x ∷ xs) = get_none xs

get_next : (xs : List ℕ) (x : ℕ) (rest : List ℕ) → get_elem? (xs ++ x ∷ rest) (length xs) ≡ some x
get_next [] x rest = refl
get_next (y ∷ xs) x rest = get_next xs x rest

swap_remove_next :
    (xs : List ℕ) (x : ℕ) (rest : List ℕ)
    → swap_remove (length xs) (xs ++ x ∷ rest) ≡ xs ++ last_to_front (x ∷ rest)
swap_remove_next [] x rest = refl
swap_remove_next (y ∷ xs) x rest = ap (λ (t : List ℕ). y ∷ t) (swap_remove_next xs x rest)

append_one : (xs : List ℕ) (x : ℕ) (rest : List ℕ) → xs ++ x ∷ rest ≡ (xs ++ x ∷ []) ++ rest
append_one [] x rest = refl
append_one (y ∷ xs) x rest = ap (λ (t : List ℕ). y ∷ t) (append_one xs x rest)

length_one_more : (xs : List ℕ) (x : ℕ) → length (xs ++ x ∷ []) ≡ length xs + 1
length_one_more [] x = refl
length_one_more (y ∷ xs) x = omega (arith, length_one_more xs x)

-- After suspending, for one thread: no handle is lost, and the thread was suspended once more for each
-- time that it is still tracked, those in `before` left out.
abbrev Suspended : ℕ → List ℕ → Window → Window → Type 0
Suspended h before w r =
    (occurs h r.threads + occurs h r.closed ≡ occurs h w.threads + occurs h w.closed)
    × (r.suspensions h + occurs h before ≡ w.suspensions h + occurs h r.threads)
    × (r.threads_suspended ≡ w.threads_suspended)

all_done :
    (h : ℕ) (before : List ℕ) (w : Window) → w.threads ≡ before ++ [] → Suspended h before w w
all_done h before w e =
    (refl, omega (arith, ap (λ t. occurs h t) e, occurs-append h before []), refl)

one_more :
    (h y : ℕ) (done : List ℕ) (before after : ℕ → ℕ) (tracked : ℕ)
    → after h + occurs h (done ++ y ∷ []) ≡ suspend_one before y h + tracked
    → after h + occurs h done ≡ before h + tracked
unfolding suspend_one
one_more h y done before after tracked count = ground (arith, occurs-append h done (y ∷ []), count)

suspend_from-Suspended :
    (suspends : ℕ → Bool) (h fuel : ℕ) (before rest : List ℕ) (w : Window)
    → w.threads ≡ before ++ rest
    → length rest ≤ fuel
    → Suspended h before w (suspend_from suspends fuel (length before) w)
unfolding suspend_from suspend_at
suspend_from-Suspended suspends h zero before [] w e le = all_done h before w e
suspend_from-Suspended suspends h zero before (x ∷ rest) w e le = absurd (omega arith)
suspend_from-Suspended suspends h (suc fuel) before [] w e le =
    subst
      (λ o.
        Suspended h before w (suspend_at suspends (suspend_from suspends fuel) (length before) w o))
      (sym (ap (λ t. get_elem? t (length before)) e ∙ get_none before)) (all_done h before w e)
suspend_from-Suspended suspends h (suc fuel) before (x ∷ rest) w e le =
    subst
      (λ o.
        Suspended h before w (suspend_at suspends (suspend_from suspends fuel) (length before) w o))
      (sym (ap (λ t. get_elem? t (length before)) e ∙ get_next before x rest))
      (elim (Bool-cases (suspends x)) [
        | inl can ↦
            let kept : Window = record w { suspensions = suspend_one w.suspensions x } in
            let after = suspend_from suspends fuel (length (before ++ x ∷ [])) kept in
            let (handles, count, flag) =
              suspend_from-Suspended suspends h fuel (before ++ x ∷ []) rest kept
                (e ∙ append_one before x rest) (omega arith) in
            subst (Suspended h before w)
              (ap (λ n. suspend_from suspends fuel n kept) (length_one_more before x)
                ∙ sym (if_true _ _ can))
              (
                handles,
                one_more h x before w.suspensions after.suspensions (occurs h after.threads) count,
                flag,
              )
        | inr cannot ↦
            let dropped : Window = record w {
              threads = swap_remove (length before) w.threads;
              closed = x ∷ w.closed;
            } in
            let swapped =
              ap (λ t. swap_remove (length before) t) e ∙ swap_remove_next before x rest in
            let (handles, count, flag) =
              suspend_from-Suspended suspends h fuel before (last_to_front (x ∷ rest)) dropped
                swapped (omega (arith, length-last_to_front x rest)) in
            subst (Suspended h before w) (sym (if_false _ _ cannot)) (
              omega (
                arith,
                handles,
                ap (λ t. occurs h t) swapped,
                ap (λ t. occurs h t) e,
                occurs-append h before (last_to_front (x ∷ rest)),
                occurs-append h before (x ∷ rest),
                occurs-last_to_front h x rest,
              ),
              count,
              flag,
            )
      ])

resume_each-less :
    (hs : List ℕ) (count : ℕ → ℕ) (h : ℕ) → resume_each hs count h ≡ count h - occurs h hs
unfolding resume_each resume_one
resume_each-less [] count h = omega arith
resume_each-less (g ∷ hs) count h = resume_each-less hs (resume_one count g) h ∙ (ground arith)

-- What a commit leaves of the threads, for one handle: nothing is tracked or suspended, the thread is
-- suspended as often as before, and the handle was closed as often as it was tracked.
abbrev pub LetGo : ℕ → Window → Window → Type 0
LetGo h w r =
    (r.threads ≡ [])
    × (r.threads_suspended ≡ false)
    × (r.suspensions h ≡ w.suspensions h)
    × (occurs h r.closed ≡ occurs h w.threads + occurs h w.closed)

cleanup-LetGo :
    (h : ℕ) (w r : Window)
    → r.threads_suspended ≡ true
    → occurs h r.threads + occurs h r.closed ≡ occurs h w.threads + occurs h w.closed
    → r.suspensions h ≡ w.suspensions h + occurs h r.threads
    → LetGo h w (cleanup_threads r)
unfolding cleanup_threads resume_threads
cleanup-LetGo h w r on handles count =
    let resumed : Window → Type 0 =
      λ u. LetGo h w (record u { threads = []; closed = u.threads ++ u.closed }) in
    subst resumed (sym (if_true _ _ on)) (
      refl,
      refl,
      resume_each-less r.threads r.suspensions h ∙ (omega arith),
      occurs-append h r.threads r.closed ∙ handles,
    )

-- The end of a commit that suspended the threads.
pub cleanup_threads-suspend_threads :
    (suspends : ℕ → Bool) (h : ℕ) (w : Window)
    → w.threads_suspended ≡ false
    → LetGo h w (cleanup_threads (suspend_threads suspends w))
unfolding suspend_threads
cleanup_threads-suspend_threads suspends h w off =
    let suspended = suspend_from suspends (length w.threads) 0 w in
    let (handles, count, flag) =
      suspend_from-Suspended suspends h (length w.threads) [] w.threads w refl (omega arith) in
    subst (λ (u : Window). LetGo h w (cleanup_threads u)) (sym (if_false _ _ off))
      (cleanup-LetGo h w (record suspended { threads_suspended = true }) refl handles
        (omega (arith, count)))

-- The end of a commit that has resumed the threads already is the same.
pub cleanup_threads-resume_threads :
    (w : Window) → cleanup_threads (resume_threads w) ≡ cleanup_threads w
unfolding cleanup_threads resume_threads
cleanup_threads-resume_threads w = elim (Bool-cases w.threads_suspended) [
  | inl on ↦
      ap (λ (u : Window). cleanup_threads u) (if_true _ _ on)
      ∙ sym (
          ap (λ (u : Window). record u { threads = []; closed = u.threads ++ u.closed })
            (if_true _ _ on))
  | inr off ↦ ap (λ (u : Window). cleanup_threads u) (if_false _ _ off)
]

-- The end of a commit that never suspended them.
pub cleanup_threads_unsuspended :
    (h : ℕ) (w : Window) → w.threads_suspended ≡ false → LetGo h w (cleanup_threads w)
unfolding cleanup_threads resume_threads
cleanup_threads_unsuspended h w off =
    subst (λ (u : Window). LetGo h w (record u { threads = []; closed = u.threads ++ u.closed }))
      (sym (if_false _ _ off)) (refl, off, refl, occurs-append h w.threads w.closed)
