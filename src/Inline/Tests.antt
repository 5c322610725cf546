-- ===== src/Inline/Tests.antt =====
-- A hook of five bytes, toggled, unhooked and dropped.
use neohook.Base.{◌≡◌, ◌⊎◌, refl, inl, inr, true, false, [], ◌∷◌, arith}
use neohook.Base.Results.{ok, err}
use neohook.Patches.{TargetKind, JumpType, live_patch_starts_at}
use neohook.Inline.{
  Process, InlineHook, Writable, write_bytes, is_managed_gateway, disable, enable, unhook,
}
use neohook.Inline.Bytes.{Holds}
use neohook.Inline.Toggle.{IsWritable, enable-disable}
use neohook.Base.Errors.{relocation_failed}
use neohook.Inline.Failure.{CodeBack, unhook_failed}
use neohook.Inline.Removal.{GivenUp, unhook_restores}

abbrev sample : InlineHook
sample = record {
  target = 0x1000;
  trampoline_ptr = 0x8000;
  trampoline_size = 64;
  stolen_len = 5;
  orig_bytes = 0x55 ∷ 0x48 ∷ 0x89 ∷ 0xe5 ∷ 0x90 ∷ [];
  patch_bytes = 0xe9 ∷ 0xfb ∷ 0x0f ∷ 0 ∷ 0 ∷ [];
  jump_type = JumpType.relative5;
  target_kind = TargetKind.normal;
  active = true;
  enabled = true;
  published = true;
}

abbrev process : Process
process = record {
  memory = write_bytes (λ x. 0xcc) 0x1000 (0xe9 ∷ 0xfb ∷ 0x0f ∷ 0 ∷ 0 ∷ []);
  live = (0x1000, 5) ∷ [];
  managed = 0x8000 ∷ [];
  chained = [];
  retired = [];
}

abbrev all_pages : Writable
all_pages start len = true

abbrev no_page : Writable
no_page start len = false

sample-IsWritable : IsWritable all_pages 0x1000 5
sample-IsWritable = record {
  not_null = λ e. omega arith;
  not_empty = omega arith;
  in_space = omega arith;
  pages = refl;
}

sample-Holds : Holds process.memory 0x1000 sample.patch_bytes
sample-Holds = (refl, (refl, (refl, (refl, (refl, tt)))))

enable-disable_example :
    (off : Process) × (on : Process) × (disable all_pages sample process
      ≡ ok (record sample { enabled = false }, off))
    × Holds off.memory 0x1000 sample.orig_bytes
    × (off.memory 0x1005 ≡ process.memory 0x1005)
    × (enable all_pages (record sample { enabled = false }) off ≡ ok (sample, on))
    × (on.memory 0x1002 ≡ process.memory 0x1002)
enable-disable_example =
    enable-disable all_pages sample process 0x1002 0x1005 refl refl refl sample-Holds
      sample-IsWritable (inr (omega arith))

unhook_restores_example :
    let (answer, after) = unhook all_pages no_page sample process in
    (answer ≡ ok tt)
    × Holds after.memory 0x1000 sample.orig_bytes
    × (after.memory 0xfff ≡ process.memory 0xfff)
    × (live_patch_starts_at after.live 0x1000 ≡ false)
    × (is_managed_gateway 0x8000 after ≡ false)
    × GivenUp sample process after
unhook_restores_example =
    unhook_restores all_pages no_page sample process 0xfff refl refl (λ e. omega arith)
      (λ e. omega arith) refl sample-IsWritable (inl (omega arith))

unhook_failed_example :
    let (answer, after) = unhook no_page all_pages sample process in
    (answer ≡ err relocation_failed)
    × (((all_pages 0x1000 5 ≡ false) × (after ≡ process))
        ⊎ ((all_pages 0x1000 5 ≡ true) × CodeBack sample 0xfff process after))
unhook_failed_example =
    unhook_failed no_page all_pages sample process 0xfff refl refl (λ e. omega arith) refl
      (λ e. omega arith) (omega arith) (omega arith) refl (inl (omega arith))
