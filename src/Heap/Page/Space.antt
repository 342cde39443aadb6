-- ===== src/Heap/Page/Space.antt =====
-- Free space: a fresh page is well laid out, and a tuple for which there is room is added.
use ams.Common.{
  ℕ, zero, suc, ◌+◌, ◌-◌, ◌/◌, ◌%◌, ◌^◌, ◌≤◌, ◌<◌, ◌≡◌, refl, ◌⊎◌, inl, inr, true, none, some, List,
  length, arith, ◌==◌, Option-cases,
}
use ams.Heap.Bytes.{Buffer, read_u16, write_u16}
use ams.Heap.LinePointer
use ams.Heap.LinePointer.{LpFlags, unused, normal, redirect, dead}
use ams.Heap.Page.{
  ok, page_size, page_header_size, line_pointer_size, pd_lower, pd_upper, pd_special,
  init_with_special, is_checked, raw_line_pointer, place, slot_count, free_space, slot_kind,
  add_tuple_at, add_tuple, first_fit_slot, first_fit_from, tuple, is_unused,
}
use ams.Heap.Page.Place.{IsLaidOut, is_checked-IsLaidOut, IsLaidOut-is_checked}
use ams.Heap.Page.Tuples.{tuple-add_tuple_at}

-- The slot that the search finds is one that it looked at, and is unused.
first_fit_from_found :
    (n a s : ℕ) (page : Buffer)
    → first_fit_from n a page ≡ some s
    → (s < a + n) × (is_unused (LinePointer.flags (raw_line_pointer s page)) ≡ true)
unfolding first_fit_from
first_fit_from_found zero a s page h = cc
first_fit_from_found (suc n) a s page h = ground (arith, first_fit_from_found n (a + 1) s page)

first_fit_slot_found :
    (s : ℕ) (page : Buffer)
    → IsLaidOut page
    → first_fit_slot page ≡ some s
    → (s < slot_count page) × (is_unused (LinePointer.flags (raw_line_pointer s page)) ≡ true)
unfolding first_fit_slot slot_count
first_fit_slot_found s page h e =
    let (lt, free) =
      first_fit_from_found ((pd_lower page - page_header_size) / line_pointer_size) 0 s page
        (ground (arith, e, h.lower_upper, h.upper_special, h.special_end)) in
    (omega (arith, lt), free)

-- Nothing refuses a tuple that fits, at the end of the array or at an unused slot.
add_tuple_at_succeeds :
    (slot : ℕ) (bytes : List ℕ) (page : Buffer)
    → IsLaidOut page
    → 0 < length bytes
    → length bytes + line_pointer_size ≤ free_space page
    → (slot ≡ slot_count page)
      ⊎ ((slot < slot_count page)
          × (is_unused (LinePointer.flags (raw_line_pointer slot page)) ≡ true))
    → add_tuple_at slot bytes page ≡ ok (place slot bytes (slot == slot_count page) page)
unfolding add_tuple_at slot_kind free_space
add_tuple_at_succeeds slot bytes page h some_bytes room kind =
    ground (arith, IsLaidOut-is_checked page h, h.above_header, h.upper_special)

add_tuple_recycles :
    (s : ℕ) (bytes : List ℕ) (page page' : Buffer)
    → first_fit_slot page ≡ some s
    → add_tuple_at s bytes page ≡ ok page'
    → add_tuple bytes page ≡ ok (s, page')
unfolding add_tuple
add_tuple_recycles s bytes page page' e added = ground arith

add_tuple_appends :
    (bytes : List ℕ) (page page' : Buffer)
    → slot_count page < 2 ^ 16
    → first_fit_slot page ≡ none
    → add_tuple_at (slot_count page) bytes page ≡ ok page'
    → add_tuple bytes page ≡ ok (slot_count page, page')
unfolding add_tuple
add_tuple_appends bytes page page' small e added =
    let same : slot_count page % 2 ^ 16 ≡ slot_count page = omega arith in ground (arith, same)

slot_count_small : (page : Buffer) → IsLaidOut page → slot_count page < 2 ^ 16
unfolding slot_count
slot_count_small page h = omega (arith, h.lower_upper, h.upper_special, h.special_end)

-- `add_tuple` of a tuple that is not empty, on a page of sound geometry with free space for it and
-- for a line pointer, succeeds, and the tuple is read back from the slot that it answers.
pub add_tuple_succeeds :
    (bytes : List ℕ) (page : Buffer)
    → is_checked page ≡ true
    → 0 < length bytes
    → length bytes + line_pointer_size ≤ free_space page
    → (slot : ℕ) × (page' : Buffer) × (add_tuple bytes page ≡ ok (slot, page'))
      × (tuple slot page' ≡ ok (some bytes))
add_tuple_succeeds bytes page checked some_bytes room =
    let h = is_checked-IsLaidOut page checked in
    elim (Option-cases (first_fit_slot page)) [
      | inr (s, e) ↦
          let (lt, free) = first_fit_slot_found s page h e in
          let added = add_tuple_at_succeeds s bytes page h some_bytes room (inr (lt, free)) in
          (
            s,
            place s bytes (s == slot_count page) page,
            add_tuple_recycles s bytes page _ e added,
            tuple-add_tuple_at s bytes page _ added,
          )
      | inl e ↦
          let n = slot_count page in
          let added = add_tuple_at_succeeds n bytes page h some_bytes room (inl refl) in
          (
            n,
            place n bytes (n == slot_count page) page,
            add_tuple_appends bytes page _ (slot_count_small page h) e added,
            tuple-add_tuple_at n bytes page _ added,
          )
    ]

fresh_fields :
    (special_size : ℕ) (page : Buffer)
    → special_size ≤ page_size - page_header_size
    → (pd_lower (init_with_special special_size page) ≡ page_header_size)
      × (pd_upper (init_with_special special_size page) ≡ page_size - special_size)
      × (pd_special (init_with_special special_size page) ≡ page_size - special_size)
unfolding init_with_special pd_lower pd_upper pd_special write_u16 read_u16
fresh_fields special_size page h = (omega arith, omega arith, omega arith)

-- A fresh page whose special space leaves room for the header has a sound geometry, no slots, and
-- all of the rest as free space.
pub init_with_special_lem :
    (special_size : ℕ) (page : Buffer)
    → special_size ≤ page_size - page_header_size
    → (is_checked (init_with_special special_size page) ≡ true)
      × (slot_count (init_with_special special_size page) ≡ 0)
      × (free_space (init_with_special special_size page)
          ≡ page_size - page_header_size - special_size)
unfolding is_checked slot_count free_space
init_with_special_lem special_size page h =
    let (lower, upper, special) = fresh_fields special_size page h in
    (ground (arith, lower, upper, special), ground (arith, lower), omega (arith, lower, upper))
