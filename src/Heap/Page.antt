-- ===== src/Heap/Page.antt =====
-- Slotted pages: crates/pg-am-heap/src/slotted_page.rs on a page of the default size, and the fields
-- it uses of the header, crates/pg-storage/src/page.rs. The line pointers grow up from the header,
-- the tuples down from the special space.
pub mod Place
pub mod Tuples
pub mod Space
pub mod Delete
pub mod Chain
use ams.Common.{
  ℕ, zero, suc, ◌+◌, ◌-◌, ◌*◌, ◌/◌, ◌%◌, ◌^◌, Bool, true, false, ◌&&◌, ◌||◌, not, Option, none,
  some, List, [], ◌∷◌, length, ltb, leb, ◌==◌, if◌then◌else◌,
}
use ams.Heap.Bytes.{Buffer, copy_from_slice, slice, read_u16, write_u16, read_u32, write_u32}
use ams.Heap.LinePointer
use ams.Heap.LinePointer.{LinePointer, LpFlags, unused, normal, redirect, dead}

-- `PAGE_SIZE`, `PAGE_HEADER_SIZE`, `LINE_POINTER_SIZE`.
abbrev pub page_size : ℕ
page_size = 8192

abbrev pub page_header_size : ℕ
page_header_size = 32

abbrev pub line_pointer_size : ℕ
line_pointer_size = 4

-- The text of `Corrupted` and `InvalidArgument` is left out.
pub data HeapError : Type 0 where
  corrupted invalid_argument : HeapError
  invalid_slot : ℕ → HeapError
  tuple_too_large : ℕ → HeapError
  page_full : (needed available : ℕ) → HeapError

pub data Result {ℓ} (A : Type ℓ) : Type ℓ where
  err : HeapError → Result A
  ok : A → Result A

-- The fields of `PageHeader` that lay out the page.
unfoldable pub pd_lower : Buffer → ℕ
pd_lower page = read_u16 14 page

unfoldable pub pd_upper : Buffer → ℕ
pd_upper page = read_u16 16 page

unfoldable pub pd_special : Buffer → ℕ
pd_special page = read_u16 18 page

unfoldable pub set_pd_lower : ℕ → Buffer → Buffer
set_pd_lower v page = write_u16 14 v page

unfoldable pub set_pd_upper : ℕ → Buffer → Buffer
set_pd_upper v page = write_u16 16 v page

-- `PageHeader::init_page` on a zeroed page: the fields that are not zero.
abbrev pub init_page : Buffer → Buffer
init_page page =
    write_u16 20 1
      (write_u16 18 page_size (write_u16 16 page_size (write_u16 14 page_header_size page)))

unfoldable pub init_with_special : ℕ → Buffer → Buffer
init_with_special special_size page =
    let pd_special = (page_size - special_size) % 2 ^ 16 in
    write_u16 18 pd_special (write_u16 16 pd_special (init_page (λ _. 0)))

unfoldable pub init : Buffer → Buffer
init page = init_with_special 0 page

unfoldable pub init_if_fresh_with_special : ℕ → Buffer → Buffer
init_if_fresh_with_special special_size page =
    if pd_upper page == 0 then init_with_special special_size page else page

unfoldable pub slot_count : Buffer → ℕ
slot_count page = (pd_lower page - page_header_size) / line_pointer_size

unfoldable pub free_space : Buffer → ℕ
free_space page = pd_upper page - pd_lower page

-- The geometry that `checked_header` asks for.
abbrev pub good_geometry : ℕ → ℕ → ℕ → Bool
good_geometry lower upper special =
    leb page_header_size lower
    && (((lower - page_header_size) % line_pointer_size == 0)
        && (leb lower upper && (leb upper special && leb special page_size)))

-- `Err` of `checked_header`, as a test.
unfoldable pub is_checked : Buffer → Bool
is_checked page = good_geometry (pd_lower page) (pd_upper page) (pd_special page)

abbrev pub lp_offset : ℕ → ℕ
lp_offset slot = page_header_size + slot * line_pointer_size

-- The line pointer's bytes, without a check.
unfoldable pub raw_line_pointer : ℕ → Buffer → LinePointer
raw_line_pointer slot page = read_u32 (lp_offset slot) page

unfoldable pub set_line_pointer : ℕ → LinePointer → Buffer → Buffer
set_line_pointer slot lp page = write_u32 (lp_offset slot) lp page

unfoldable pub line_pointer : ℕ → Buffer → Result LinePointer
line_pointer slot page =
    if not (is_checked page)
    then err corrupted
    else if leb (slot_count page) slot
    then err (invalid_slot slot)
    else ok (raw_line_pointer slot page)

abbrev pub is_unused : LpFlags → Bool
is_unused unused = true
is_unused _ = false

abbrev pub is_normal : LpFlags → Bool
is_normal normal = true
is_normal _ = false

-- The loop of `first_fit_slot` from a slot on, over the slots that remain.
unfoldable pub first_fit_from : ℕ → ℕ → Buffer → Option ℕ
first_fit_from zero slot page = none
first_fit_from (suc n) slot page =
    let rest = first_fit_from n (slot + 1) page in
    if is_unused (LinePointer.flags (raw_line_pointer slot page)) then some slot else rest

unfoldable pub first_fit_slot : Buffer → Option ℕ
first_fit_slot page =
    let lower = if leb (pd_lower page) page_size then pd_lower page else page_size in
    first_fit_from ((lower - page_header_size) / line_pointer_size) 0 page

-- Whether the slot is appended, or recycled.
unfoldable pub slot_kind : ℕ → Buffer → Result Bool
slot_kind slot page =
    if ltb (slot_count page) slot
    then err (invalid_slot slot)
    else if slot == slot_count page
    then ok true
    else if not (is_unused (LinePointer.flags (raw_line_pointer slot page)))
    then err (invalid_slot slot)
    else ok false

-- The writes of `add_tuple_at`.
unfoldable pub place : ℕ → List ℕ → Bool → Buffer → Buffer
place slot bytes appending page =
    let new_upper = pd_upper page - length bytes in
    let lower = pd_lower page in
    let placed = copy_from_slice new_upper bytes page in
    let pointed =
      set_line_pointer slot (LinePointer.new (new_upper % 2 ^ 16) normal (length bytes % 2 ^ 16))
        placed in
    let lowered =
      if appending then set_pd_lower ((lower + line_pointer_size) % 2 ^ 16) pointed else pointed in
    set_pd_upper (new_upper % 2 ^ 16) lowered

abbrev pub lp_cost : Bool → ℕ
lp_cost appending = if appending then line_pointer_size else 0

unfoldable pub add_tuple_at : ℕ → List ℕ → Buffer → Result Buffer
add_tuple_at slot bytes page =
    if not (is_checked page)
    then err corrupted
    else if length bytes == 0
    then err invalid_argument
    else if ltb (pd_special page - (page_header_size + line_pointer_size)) (length bytes)
    then err (tuple_too_large (length bytes))
    else elim (slot_kind slot page) [
      | err e ↦ err e
      | ok appending ↦
          if ltb (pd_upper page - pd_lower page) (length bytes + lp_cost appending)
          then err (page_full (length bytes + lp_cost appending) (pd_upper page - pd_lower page))
          else ok (place slot bytes appending page)
    ]

unfoldable pub add_tuple : List ℕ → Buffer → Result (ℕ × Buffer)
add_tuple bytes page =
    let slot = elim (first_fit_slot page) as (λ _. ℕ) [
      | none ↦ slot_count page % 2 ^ 16
      | some s ↦ s
    ] in
    elim (add_tuple_at slot bytes page) [ err e ↦ err e | ok page' ↦ ok (slot, page') ]

unfoldable pub delete_tuple : ℕ → Buffer → Result Buffer
delete_tuple slot page = elim (line_pointer slot page) [
  | err e ↦ err e
  | ok lp ↦
      if not (is_normal (LinePointer.flags lp))
      then err (invalid_slot slot)
      else ok (set_line_pointer slot (LinePointer.with_flags unused lp) page)
]

-- `tuple` once the line pointer is neither a redirect nor of another state than normal.
unfoldable pub read_region : LinePointer → Buffer → Result (Option (List ℕ))
read_region lp page =
    let off = LinePointer.off lp in
    let len = LinePointer.len lp in
    if ltb off (pd_upper page) || ltb (pd_special page) (off + len)
    then err corrupted
    else ok (some (slice len off page))

-- The loop of `tuple`, on fuel: the number of rounds that the source itself allows.
unfoldable pub tuple_loop : ℕ → ℕ → Buffer → Result (Option (List ℕ))
tuple_loop zero cur page = err corrupted
tuple_loop (suc rounds) cur page = elim (line_pointer cur page) [
  | err (invalid_slot _) ↦ ok none
  | err e ↦ err e
  | ok lp ↦
      let hop = tuple_loop rounds (LinePointer.off lp) page in
      elim (LinePointer.flags lp) [ redirect ↦ hop | normal ↦ read_region lp page | _ ↦ ok none ]
]

unfoldable pub tuple : ℕ → Buffer → Result (Option (List ℕ))
tuple slot page = tuple_loop (suc (slot_count page)) slot page
