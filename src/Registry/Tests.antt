-- ===== src/Registry/Tests.antt =====
-- Three hooks under names, one of them replaced.
use neohook.Base.{true, false, ◌⊎◌, ℕ, ◌≡◌, refl, none, some, List, [], ◌∷◌, length, In, arith}
use neohook.Base.Errors.{DetourError, relocation_failed}
use neohook.Base.Results.{Result, ok, err}
use neohook.Registry.{
  unhook_named, Registry, register, take_hook, insert_newest, sort_newest, values, dropped,
  unhook_all, count,
}
use neohook.Registry.Order.{unhook_named_frees, NewestFirst, unhook_all-NewestFirst, take-register}

abbrev three : List (ℕ × (ℕ × ℕ))
three = (7, (0x100, 0)) ∷ (9, (0x300, 3)) ∷ (8, (0x200, 1)) ∷ []

abbrev sample : Registry ℕ
sample = record { entries = some three; next_seq = 4 }

drop_order : (unhook_all sample).0.1 ≡ (0x300, 3) ∷ (0x200, 1) ∷ (0x100, 0) ∷ []
unfolding unhook_all dropped sort_newest insert_newest values
drop_order = refl

unhook_all-NewestFirst_example :
    NewestFirst ((unhook_all sample).0.1)
    × In (0x200, 1) ((unhook_all sample).0.1)
    × ((unhook_all sample).0.0 ≡ length ((unhook_all sample).0.1))
    × ((unhook_all sample).1.entries ≡ none)
    × (count (unhook_all sample).1 ≡ 0)
unhook_all-NewestFirst_example = unhook_all-NewestFirst sample three 8 (0x200, 1) refl refl

take-register_example :
    ((take_hook 8 (register 8 0x400 sample).1).0 ≡ some 0x400)
    × ((take_hook 9 (register 8 0x400 sample).1).0 ≡ (take_hook 9 sample).0)
    × ((register 8 0x400 sample).0 ≡ (take_hook 8 sample).0)
    × ((take_hook 8 (take_hook 8 (register 8 0x400 sample).1).1).0 ≡ none)
take-register_example = take-register 8 9 0x400 sample (λ e. omega arith)

abbrev failing : ℕ → Result DetourError (Unit {0})
failing hook = err relocation_failed

unhook_named_frees_example :
    ((take_hook 8 (unhook_named failing 8 sample).1).0 ≡ none)
    × (((take_hook 8 sample).0 ≡ none) × ((unhook_named failing 8 sample).0 ≡ ok false)
        ⊎ ((hook : ℕ) × ((take_hook 8 sample).0 ≡ some hook)
            × (((failing hook ≡ ok tt) × ((unhook_named failing 8 sample).0 ≡ ok true))
                ⊎ ((e : DetourError) × (failing hook ≡ err e)
                    × ((unhook_named failing 8 sample).0 ≡ err e)))))
unhook_named_frees_example = unhook_named_frees failing 8 sample
