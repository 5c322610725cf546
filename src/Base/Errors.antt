-- ===== src/Base/Errors.antt =====
-- `DetourError` of src/lib.rs. The errors of the parts (signatures, tables) stand without what they
-- carry.
use Prim.Native.Nat.{ℕ}

pub data DetourError : Type 0 where
  not_started allocation_failed relocation_failed invalid_parameter pattern pattern_not_found iat
        eat vtable :
      DetourError
  commit_failed : (index : ℕ) → DetourError → DetourError
