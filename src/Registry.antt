-- ===== src/Registry.antt =====
-- src/registry.rs: hooks under names. A name is a number that stands for its string; a hook is of any
-- type. An operation under the mutex is one step.
pub mod Order
pub mod Tests
use neohook.Base.{
  ℕ, ◌+◌, Bool, true, false, Option, none, some, List, [], ◌∷◌, map, length, leb, if◌then◌else◌,
}
use neohook.Base.Errors.{DetourError}
use neohook.Base.Results.{Result, ok, err, ◌>>=◌}
use neohook.Base.Maps.{find_key, insert_key, remove_key}

-- The map, absent before the first `register` and after `unhook_all`, and the next sequence number.
pub record Registry (H : Type 0) : Type 0 where
  pub entries : Option (List (ℕ × (H × ℕ)))
  pub next_seq : ℕ

module _ {H : Type 0} where
  pub get_or_insert : Option (List (ℕ × (H × ℕ))) → List (ℕ × (H × ℕ))
  get_or_insert none = []
  get_or_insert (some m) = m

  pub hook_of : Option (H × ℕ) → Option H
  hook_of none = none
  hook_of (some (hook, seq)) = some hook

  -- The hook that the name held before, and the registry.
  pub register : ℕ → H → Registry H → Option H × Registry H
  register name hook r =
      let m = get_or_insert r.entries in
      (
        hook_of (find_key name m),
        record { entries = some (insert_key name (hook, r.next_seq) m); next_seq = r.next_seq + 1 },
      )

  pub take_from : ℕ → ℕ → Option (List (ℕ × (H × ℕ))) → Option H × Registry H
  take_from name next_seq none = (none, record { entries = none; next_seq = next_seq })
  take_from name next_seq (some m) = (
    hook_of (find_key name m),
    record { entries = some (remove_key name m); next_seq = next_seq },
  )

  pub take_hook : ℕ → Registry H → Option H × Registry H
  take_hook name r = take_from name r.next_seq r.entries

  -- `sort_by_key` on the reversed sequence numbers
  pub insert_newest : H × ℕ → List (H × ℕ) → List (H × ℕ)
  insert_newest h [] = h ∷ []
  insert_newest h (other ∷ rest) =
      let later = insert_newest h rest in
      if leb (other.1) (h.1) then h ∷ other ∷ rest else other ∷ later

  pub sort_newest : List (H × ℕ) → List (H × ℕ)
  sort_newest [] = []
  sort_newest (h ∷ rest) = insert_newest h (sort_newest rest)

  pub values : List (ℕ × (H × ℕ)) → List (H × ℕ)
  values [] = []
  values ((name, h) ∷ m) = h ∷ values m

  -- The hooks in the order in which they are dropped.
  pub dropped : Option (List (ℕ × (H × ℕ))) → List (H × ℕ)
  dropped none = []
  dropped (some m) = sort_newest (values m)

  pub unhook_all : Registry H → (ℕ × List (H × ℕ)) × Registry H
  unhook_all r =
      let hooks = dropped r.entries in
      ((length hooks, hooks), record { entries = none; next_seq = r.next_seq })

  pub count : Registry H → ℕ
  count r = length (get_or_insert r.entries)

  -- The entry after an operation on its hook; a failed operation leaves it.
  pub entry_after :
      ℕ
      → ℕ
      → List (ℕ × (H × ℕ))
      → Registry H
      → Result DetourError H
      → Result DetourError Bool × Registry H
  entry_after name seq m r (err e) = (err e, r)
  entry_after name seq m r (ok hook) =
      (ok true, record r { entries = some (insert_key name (hook, seq) m) })

  pub at_entry :
      (H → Result DetourError H)
      → ℕ
      → Registry H
      → Option (H × ℕ)
      → Result DetourError Bool × Registry H
  at_entry operation name r none = (ok false, r)
  at_entry operation name r (some (hook, seq)) =
      entry_after name seq (get_or_insert r.entries) r (operation hook)

  -- `enable` and `disable` by name; what the hook does is a parameter.
  pub enable_named :
      (H → Result DetourError H) → ℕ → Registry H → Result DetourError Bool × Registry H
  enable_named enabling name r = at_entry enabling name r (find_key name (get_or_insert r.entries))

  pub disable_named :
      (H → Result DetourError H) → ℕ → Registry H → Result DetourError Bool × Registry H
  disable_named disabling name r =
      at_entry disabling name r (find_key name (get_or_insert r.entries))

  pub unhook_result : (H → Result DetourError (Unit {0})) → Option H → Result DetourError Bool
  unhook_result unhooking none = ok false
  unhook_result unhooking (some hook) = do done ← unhooking hook; ok true

  -- The name is free afterwards, whatever the hook answers.
  pub unhook_named :
      (H → Result DetourError (Unit {0})) → ℕ → Registry H → Result DetourError Bool × Registry H
  unhook_named unhooking name r =
      let (removed, left) = take_hook name r in (unhook_result unhooking removed, left)

  pub names : Registry H → List ℕ
  names r = map (λ (entry : ℕ × (H × ℕ)). entry.0) (get_or_insert r.entries)
