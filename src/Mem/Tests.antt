-- ===== src/Mem/Tests.antt =====
-- Examples of writes to memory, and the witnesses of their theorems.
use neohook.Base.{ℕ, ◌≡◌, refl, true, false, none, List, [], ◌∷◌, ◌==◌, if◌then◌else◌, arith}
use neohook.Inline
use neohook.Mem.{
  Os, Space, page_execute_read, page_readonly, virtual_protect, protect_page_same_execute,
  change_page, change_pages, page_of, page_count, change, batch_end, unless_stopped, page_batches,
  for_each_page_batch, write_batch, write_pages, kept_bytes, write_memory_atomic, write_code_bytes,
}
use neohook.Mem.Restore.{Restorable}
use neohook.Mem.Written.{Answered, write_memory_atomic-Answered}
use neohook.Mem.Refines.{Refined, writable, write_code_bytes-Refined}

-- Every page can be changed, but the one at 0x3000 cannot be queried.
abbrev windows : Os
windows = record {
  queryable = λ page. if page == 0x3000 then false else true;
  protectable = λ page new. true;
}

abbrev space : Space
space = record {
  memory = λ x. 0xcc;
  protections = λ page. if page == 0x1000 then page_execute_read else page_readonly;
  orig = [];
}

abbrev jump : List ℕ
jump = 0xe9 ∷ 1 ∷ 2 ∷ 3 ∷ 4 ∷ []

space-Restorable : Restorable windows space.protections
space-Restorable page = refl

across_pages : (write_code_bytes windows 0x1ffe jump space).1.memory 0x2001 ≡ 3
unfolding write_code_bytes write_pages for_each_page_batch page_batches unless_stopped batch_end
    page_of write_batch change change_pages change_page page_count protect_page_same_execute
    virtual_protect
across_pages = refl

second_page_lost : (write_memory_atomic windows 0x2ffe jump space).0 ≡ none
unfolding write_memory_atomic kept_bytes write_pages for_each_page_batch page_batches unless_stopped
    batch_end page_of write_batch change change_pages change_page page_count
    protect_page_same_execute virtual_protect
second_page_lost = refl

write_memory_atomic-Answered_example :
    Answered 0x1ffe jump space (write_memory_atomic windows 0x1ffe jump space)
write_memory_atomic-Answered_example =
    write_memory_atomic-Answered windows 0x1ffe jump space space-Restorable

write_code_bytes-Refined_example :
    Refined space
      (write_code_bytes windows 0x1ffe jump space)
      (Inline.write_code_bytes (writable windows space.protections) space.memory 0x1ffe jump)
write_code_bytes-Refined_example =
    write_code_bytes-Refined windows 0x1ffe jump space space-Restorable (omega arith)
