-- ===== src/Lib.antt =====
-- Verification of NeoHook, a library for hooking functions on Windows (x86 and x86_64).
--
-- The model follows the x86_64 build. A 64-bit word is a natural number below 2 ^ 64; arithmetic
-- that the source leaves unchecked wraps as in a release build, and the checked and saturating
-- operations are written out in Base/Words. Code points, bytes and addresses are numbers too.
-- The operating system (VirtualQuery, VirtualAlloc, exception handlers, threads) is a parameter of
-- the definitions that call it.
--
-- Parts:
--   Alloc      src/alloc.rs: where a trampoline is placed near its target. Alloc has the helpers on
--              one region, Alloc/Search the walk over the window, the order of the attempts and the
--              attempts; the walk has a step for each address of the window as fuel.
--   Scan       src/scan.rs: byte signatures. Scan has parsing and the search in a slice,
--              Scan/Committed the search in the regions of a range, with a step for each address.
--              An index out of a slice, which would panic, and fuel that runs out are `none`.
--   Patches    src/transaction.rs, its tables and the jump it writes: live patches, table slots,
--              gateways with hooks chained on them, `inline_patch_bytes`. A mutex and its table are
--              a list, and an operation under the lock is one step.
--   Int3       src/int3.rs: the statics are one record, install, removal and release are steps on
--              it, and the handler answers where a trapped thread goes on. It asks Patches whether
--              a live patch lies at the target.
--   Inline     src/transaction.rs, the inline hook after its commit: disable, enable, unhook, detach
--              and drop, on a process that is the memory, the tables of Patches and the trampolines
--              handed to src/reclaim.rs. A write to code (src/mem.rs) is whole or fails, and the
--              write of `unhook` and that of the drop which ends it may have different answers.
--   Table      src/transaction.rs, the import and export hooks after their commit, on the entries,
--              the claimed slots and the goals of the jump stubs.
--   Code       src/code.rs: the walk through jumps to the code behind a pointer, with the 32 rounds
--              of the source.
--   Registry   src/registry.rs: hooks of any type under names, which are numbers here; `unhook_all`
--              answers with the order in which the hooks are dropped.
--   Redirect   src/transaction.rs: how a commit moves suspended threads away from the bytes that
--              inline hooks overwrite, and how a rollback moves them back. The loop over the regions
--              of a stack has 2^64 rounds at most, since each advances by a byte or more.
--   Mem        src/mem.rs: writes that lift the protection of pages for a moment, in batches of eight
--              pages. The loop over the batches has as many rounds as the range has bytes, since each
--              advances by a byte or more. The flush of the instruction cache is left out.
--   Veh        src/veh.rs: hooks by hardware breakpoints, with the exception handler here and the
--              installs and removals in Veh/Manager. What the calls on a thread answer, and whether an
--              exception is in flight, are parameters; threads that start later are not followed.
--   Commit     src/transaction.rs: the commit of inline hooks, on the threads of Commit/Threads, the
--              redirecting of Redirect and the hooks of Inline. What changing the protection of
--              code answers at an install, at a disabling and at a drop are parameters of their own.
--              Suspending has as many rounds as there are tracked threads, since each goes on to the
--              next thread or drops one.
--   Vtable     src/vtable.rs: hooks of one slot of a virtual table, on the words of memory and the
--              claimed slots of Patches.
--
-- Not modelled:
--   The x86 (32-bit) build, the macros and the wrappers of src/api.rs, logging (src/trace.rs,
--   src/introspect.rs) and the calls of the operating system that src/cfg.rs, src/symbols.rs and
--   src/module.rs only forward to. In a commit, the hooks of tables and the detaches. The relocation
--   of instructions (src/disasm.rs, src/gateway.rs, src/unwind.rs, src/midhook.rs), which stands on a
--   third-party decoder, the parsing of images (src/pe.rs, src/iat.rs, src/eat.rs), the quarantine of
--   memory (src/reclaim.rs, src/inflight.rs) and the watchers (src/watchdog.rs, src/delay.rs,
--   src/detect.rs, src/signature.rs, src/reentrancy.rs) are not covered yet.
pub mod Base
pub mod Alloc
pub mod Scan
pub mod Patches
pub mod Int3
pub mod Inline
pub mod Table
pub mod Code
pub mod Registry
pub mod Redirect
pub mod Mem
pub mod Veh
pub mod Commit
pub mod Vtable
