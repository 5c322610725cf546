-- ===== src/Commit/Threads.antt =====
-- src/transaction.rs: the tracked threads of a transaction, which a commit suspends, resumes and
-- closes. The number of times that each thread is suspended is state.
pub mod Balance
use neohook.Base.{
  ℕ, zero, suc, ◌+◌, ◌-◌, Bool, true, false, Option, none, some, List, [], ◌∷◌, ◌++◌, length,
  get_elem?, ◌==◌, if◌then◌else◌,
}

pub record Window : Type 0 where
  pub threads : List ℕ
  pub threads_suspended : Bool
  pub suspensions : ℕ → ℕ
  pub closed : List ℕ

abbrev pub last_of : ℕ → List ℕ → ℕ
last_of x [] = x
last_of x (y ∷ ys) = last_of y ys

abbrev pub all_but_last : ℕ → List ℕ → List ℕ
all_but_last x [] = []
all_but_last x (y ∷ ys) = x ∷ all_but_last y ys

-- The first element removed, with the last one in its place.
abbrev pub last_to_front : List ℕ → List ℕ
last_to_front [] = []
last_to_front (x ∷ []) = []
last_to_front (x ∷ y ∷ ys) = last_of y ys ∷ all_but_last y ys

abbrev pub swap_remove : ℕ → List ℕ → List ℕ
swap_remove i [] = []
swap_remove zero (x ∷ xs) = last_to_front (x ∷ xs)
swap_remove (suc i) (x ∷ xs) = x ∷ swap_remove i xs

pub suspend_one : (ℕ → ℕ) → ℕ → ℕ → ℕ
suspend_one count h g = if g == h then count g + 1 else count g

pub resume_one : (ℕ → ℕ) → ℕ → ℕ → ℕ
resume_one count h g = if g == h then count g - 1 else count g

-- One round of the loop; `go_on` makes the later ones.
unfoldable pub suspend_at : (ℕ → Bool) → (ℕ → Window → Window) → ℕ → Window → Option ℕ → Window
suspend_at suspends go_on i w none = w
suspend_at suspends go_on i w (some h) =
    let kept = record w { suspensions = suspend_one w.suspensions h } in
    let dropped = record w { threads = swap_remove i w.threads; closed = h ∷ w.closed } in
    if suspends h then go_on (i + 1) kept else go_on i dropped

-- The loop from the thread at `i` on. Each round either goes on to the next thread or drops one, so
-- that the number of threads is fuel enough.
unfoldable pub suspend_from : (ℕ → Bool) → ℕ → ℕ → Window → Window
suspend_from suspends zero i w = w
suspend_from suspends (suc fuel) i w =
    suspend_at suspends (suspend_from suspends fuel) i w (get_elem? w.threads i)

unfoldable pub suspend_threads : (ℕ → Bool) → Window → Window
suspend_threads suspends w =
    let suspended = suspend_from suspends (length w.threads) 0 w in
    if w.threads_suspended then w else record suspended { threads_suspended = true }

pub resume_each : List ℕ → (ℕ → ℕ) → ℕ → ℕ
resume_each [] count = count
resume_each (h ∷ hs) count = resume_each hs (resume_one count h)

pub resume_threads : Window → Window
resume_threads w =
    if w.threads_suspended
    then record w { suspensions = resume_each w.threads w.suspensions; threads_suspended = false }
    else w

pub cleanup_threads : Window → Window
cleanup_threads w =
    let resumed = resume_threads w in
    record resumed { threads = []; closed = resumed.threads ++ resumed.closed }
