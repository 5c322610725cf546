-- ===== src/Mem.antt =====
-- src/mem.rs: writes to memory that lift the protection of the pages for a moment. Memory, the
-- protection of each page (by the address of its first byte) and the bytes that a write keeps are
-- state; whether `VirtualQuery` and `VirtualProtect` succeed on a page is a parameter.
pub mod Restore
pub mod Batches
pub mod Copies
pub mod Written
pub mod Refines
pub mod Tests
use neohook.Base.{
  ℕ, zero, suc, ◌+◌, ◌-◌, ◌*◌, ◌/◌, ◌^◌, min, Bool, true, false, ◌&&◌, ◌||◌, Option, none, some,
  List, [], ◌∷◌, ◌++◌, not, length, take, drop, bit_and, ltb, ◌==◌, if◌then◌else◌,
}
use neohook.Base.Assign.{assign}
use neohook.Base.Words.{not64, saturating_add}
use neohook.Inline.{write_bytes}

-- The documented protection constants of the Windows API.
abbrev pub page_readonly : ℕ
page_readonly = 0x02

abbrev pub page_readwrite : ℕ
page_readwrite = 0x04

abbrev pub page_writecopy : ℕ
page_writecopy = 0x08

abbrev pub page_execute_read : ℕ
page_execute_read = 0x20

abbrev pub page_execute_readwrite : ℕ
page_execute_readwrite = 0x40

abbrev pub page_execute_writecopy : ℕ
page_execute_writecopy = 0x80

abbrev pub execute_flags : ℕ
execute_flags = 0xf0

abbrev pub page_size : ℕ
page_size = 0x1000

abbrev pub max_batch_pages : ℕ
max_batch_pages = 8

pub record Os : Type 0 where
  pub queryable : ℕ → Bool
  pub protectable : ℕ → ℕ → Bool

abbrev pub Protections : Type 0
Protections = ℕ → ℕ

pub detour_page_protect_adjust_execute : ℕ → ℕ → ℕ
detour_page_protect_adjust_execute old new =
    if bit_and old execute_flags == 0
    then new
    else if new == page_readonly
    then page_execute_read
    else if new == page_readwrite
    then page_execute_readwrite
    else if new == page_writecopy
    then page_execute_writecopy
    else new

-- `VirtualProtect` on one page: the old protection, and the protections after the call.
pub virtual_protect : Os → ℕ → ℕ → Protections → Option (ℕ × Protections)
virtual_protect os page new p =
    if os.protectable page new then some (p page, assign p page new) else none

pub protect_page_same_execute : Os → ℕ → ℕ → Protections → Option (ℕ × Protections)
protect_page_same_execute os page new p =
    if os.queryable page
    then virtual_protect os page (detour_page_protect_adjust_execute (p page) new) p
    else none

-- `count` is the length of `old`.
pub record PageProtections : Type 0 where
  pub first_page : ℕ
  pub old : List ℕ

-- The protections after one call of the loop in `restore`, which goes on after a failed one.
pub restored_page : Protections → Option (ℕ × Protections) → Bool × Protections
restored_page p none = (false, p)
restored_page p (some (old, after)) = (true, after)

pub restore_pages : Os → ℕ → List ℕ → Protections → Bool × Protections
restore_pages os page [] p = (true, p)
restore_pages os page (old ∷ rest) p =
    let (done, after) = restored_page p (virtual_protect os page old p) in
    let (others, final) = restore_pages os (page + page_size) rest after in (done && others, final)

pub restore : Os → PageProtections → Protections → Bool × Protections
restore os saved p = restore_pages os saved.first_page saved.old p

-- One round of the loop in `change`; `go_on` makes the later ones.
pub change_page :
    Os
    → (PageProtections → Protections → Option PageProtections × Protections)
    → PageProtections
    → Protections
    → Option (ℕ × Protections)
    → Option PageProtections × Protections
change_page os go_on saved p none = (none, (restore os saved p).1)
change_page os go_on saved p (some (old, after)) =
    go_on (record saved { old = saved.old ++ old ∷ [] }) after

pub change_pages : Os → ℕ → ℕ → PageProtections → Protections → Option PageProtections × Protections
change_pages os new zero saved p = (some saved, p)
change_pages os new (suc rounds) saved p =
    let page = saved.first_page + length saved.old * page_size in
    change_page os (change_pages os new rounds) saved p (protect_page_same_execute os page new p)

pub page_of : ℕ → ℕ
page_of addr = bit_and addr (not64 (page_size - 1))

pub page_count : ℕ → ℕ → ℕ
page_count start len = (page_of (start + len - 1) - page_of start) / page_size + 1

pub change : Os → ℕ → ℕ → ℕ → Protections → Option PageProtections × Protections
change os start len new p =
    change_pages os new (min (page_count start len) max_batch_pages)
      (record { first_page = page_of start; old = [] }) p

pub batch_end : ℕ → ℕ → ℕ
batch_end chunk end_of = min (saturating_add (page_of chunk) (max_batch_pages * page_size)) end_of

-- Goes on after a batch that answered `true`.
pub unless_stopped : {S : Type 0} → Bool × S → (S → Bool × S) → Bool × S
unless_stopped (true, s) next = next s
unless_stopped (false, s) next = (false, s)

-- The loop; each round advances by a byte at least, so that the length is fuel enough.
pub page_batches : {S : Type 0} → (ℕ → ℕ → S → Bool × S) → ℕ → ℕ → ℕ → S → Bool × S
page_batches f zero chunk end_of s = (true, s)
page_batches f (suc fuel) chunk end_of s =
    let next = batch_end chunk end_of in
    if ltb chunk end_of
    then unless_stopped (f chunk (next - chunk) s) (page_batches f fuel next end_of)
    else (true, s)

pub for_each_page_batch : {S : Type 0} → ℕ → ℕ → (ℕ → ℕ → S → Bool × S) → S → Bool × S
for_each_page_batch start len f s = page_batches f len start (start + len) s

-- Memory, its protections, and the bytes that were there before a write.
pub record Space : Type 0 where
  pub memory : ℕ → ℕ
  pub protections : Protections
  pub orig : List ℕ

abbrev pub read_bytes : (ℕ → ℕ) → ℕ → ℕ → List ℕ
read_bytes memory start zero = []
read_bytes memory start (suc len) = memory start ∷ read_bytes memory (start + 1) len

-- The copies of one batch, after its pages were made writable or not.
pub write_batch :
    Os → ℕ → List ℕ → ℕ → ℕ → Space → Option PageProtections × Protections → Bool × Space
write_batch os start src chunk len s (none, p) = (false, record s { protections = p })
write_batch os start src chunk len s (some saved, p) = (
  true,
  record {
    memory = write_bytes s.memory chunk (take len (drop (chunk - start) src));
    protections = (restore os saved p).1;
    orig = s.orig ++ read_bytes s.memory chunk len;
  },
)

pub write_pages : Os → ℕ → List ℕ → Space → Bool × Space
write_pages os start src s =
    if ltb (start + length src) (2 ^ 64)
    then for_each_page_batch start (length src)
        (λ chunk len (t : Space).
          write_batch os start src chunk len t (change os chunk len page_readwrite t.protections))
        s
    else (false, s)

-- The bytes that were there before, where the write succeeded.
pub kept_bytes : Bool × Space → Option (List ℕ) × Space
kept_bytes (true, s) = (some s.orig, s)
kept_bytes (false, s) = (none, s)

pub write_memory_atomic : Os → ℕ → List ℕ → Space → Option (List ℕ) × Space
write_memory_atomic os target src s =
    if target == 0 || length src == 0
    then (none, s)
    else kept_bytes (write_pages os target src (record s { orig = [] }))

pub write_code_bytes : Os → ℕ → List ℕ → Space → Bool × Space
write_code_bytes os target src s =
    if target == 0 || length src == 0 then (false, s) else write_pages os target src s

-- The protection of the first page of the range, and the protections now.
abbrev pub FirstOld : Type 0
FirstOld = Option ℕ × Protections

-- `get_or_insert(saved.old[0])`
pub get_or_insert : Option ℕ → List ℕ → Option ℕ
get_or_insert (some old) olds = some old
get_or_insert none [] = none
get_or_insert none (old ∷ olds) = some old

pub protect_batch : Option ℕ → Option PageProtections × Protections → Bool × FirstOld
protect_batch first_old (none, p) = (false, (first_old, p))
protect_batch first_old (some saved, p) = (true, (get_or_insert first_old saved.old, p))

pub virtual_protect_same_execute : Os → ℕ → ℕ → ℕ → Protections → Bool × FirstOld
virtual_protect_same_execute os start size new p =
    if size == 0 || not (ltb (start + size) (2 ^ 64))
    then (false, (none, p))
    else for_each_page_batch start size
        (λ chunk len (s : FirstOld). protect_batch (s.0) (change os chunk len new (s.1))) (none, p)
