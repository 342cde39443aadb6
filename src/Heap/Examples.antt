-- ===== src/Heap/Examples.antt =====
-- Runs of line pointers and of a page.
use ams.Common.{
  ◌⊎◌, ℕ, ◌+◌, ◌^◌, ◌<◌, ◌≤◌, ◌≡◌, ◌≢◌, refl, true, some, List, [], ◌∷◌, length, arith,
}
use ams.Storage.LittleEndian.{to_le_bytes}
use ams.Heap.Page.Chain.{set_next_page, has_chain}
use ams.Heap.Bytes.{copy_from_slice, Buffer, read_u16, write_u16, read_u32, write_u32}
use ams.Heap.LinePointer
use ams.Heap.LinePointer.{LpFlags, unused, normal, redirect, dead}
use ams.Heap.Page.{
  ok, line_pointer_size, pd_lower, pd_upper, pd_special, set_pd_lower, set_pd_upper,
  init_with_special, is_checked, raw_line_pointer, line_pointer, set_line_pointer, place,
  slot_count, free_space, slot_kind, add_tuple_at, add_tuple, delete_tuple, tuple,
}
use ams.Heap.Page.Tuples.{tuple-add_tuple_at, add_tuple_at_keeps_others}
use ams.Heap.Page.Space.{add_tuple_succeeds}
use ams.Heap.Page.Delete.{delete_tuple_keeps_others}

-- A page with the space for the chain of pages, and two tuples on it.
abbrev fresh : Buffer
fresh = init_with_special 16 (λ _. 0)

abbrev first_bytes : List ℕ
first_bytes = 1 ∷ 2 ∷ 3 ∷ []

abbrev second_bytes : List ℕ
second_bytes = 7 ∷ 8 ∷ []

abbrev one : Buffer
one = place 0 first_bytes true fresh

abbrev two : Buffer
two = place 1 second_bytes true one

one_added : add_tuple_at 0 first_bytes fresh ≡ ok one
unfolding init_with_special add_tuple_at slot_kind is_checked pd_lower pd_upper pd_special
    set_pd_lower set_pd_upper read_u16 write_u16 read_u32 write_u32 slot_count free_space place
    set_line_pointer raw_line_pointer LinePointer.new LinePointer.flags LinePointer.flags_from_bits
one_added = refl

two_added : add_tuple_at 1 second_bytes one ≡ ok two
unfolding init_with_special add_tuple_at slot_kind is_checked pd_lower pd_upper pd_special
    set_pd_lower set_pd_upper read_u16 write_u16 read_u32 write_u32 slot_count free_space place
    set_line_pointer raw_line_pointer LinePointer.new LinePointer.flags LinePointer.flags_from_bits
two_added = refl

first_read : tuple 0 one ≡ ok (some first_bytes)
first_read = tuple-add_tuple_at 0 first_bytes fresh one one_added

tuple-add_tuple_at_example : tuple 0 one ≡ ok (some first_bytes)
tuple-add_tuple_at_example = tuple-add_tuple_at 0 first_bytes fresh one one_added

first_direct : LinePointer.flags (raw_line_pointer 0 one) ≢ redirect
unfolding init_with_special add_tuple_at slot_kind is_checked pd_lower pd_upper pd_special
    set_pd_lower set_pd_upper read_u16 write_u16 read_u32 write_u32 slot_count free_space place
    set_line_pointer raw_line_pointer LinePointer.new LinePointer.flags LinePointer.flags_from_bits
first_direct e = cc

add_tuple_at_keeps_others_example : tuple 0 two ≡ ok (some first_bytes)
add_tuple_at_keeps_others_example =
    add_tuple_at_keeps_others 1 0 second_bytes one two (some first_bytes) two_added
      (λ e. omega (arith, e)) first_direct first_read

fresh_fits : length first_bytes + line_pointer_size ≤ free_space fresh
unfolding init_with_special add_tuple_at slot_kind is_checked pd_lower pd_upper pd_special
    set_pd_lower set_pd_upper read_u16 write_u16 read_u32 write_u32 slot_count free_space place
    set_line_pointer raw_line_pointer LinePointer.new LinePointer.flags LinePointer.flags_from_bits
fresh_fits = omega arith

add_tuple_succeeds_example :
    (slot : ℕ) × (page' : Buffer) × (add_tuple first_bytes fresh ≡ ok (slot, page'))
    × (tuple slot page' ≡ ok (some first_bytes))
unfolding init_with_special add_tuple_at slot_kind is_checked pd_lower pd_upper pd_special
    set_pd_lower set_pd_upper read_u16 write_u16 read_u32 write_u32 slot_count free_space place
    set_line_pointer raw_line_pointer LinePointer.new LinePointer.flags LinePointer.flags_from_bits
add_tuple_succeeds_example = add_tuple_succeeds first_bytes fresh refl (omega arith) fresh_fits

-- The first of the two is deleted.
abbrev deleted : Buffer
deleted = set_line_pointer 0 (LinePointer.with_flags unused (raw_line_pointer 0 two)) two

deletes : delete_tuple 0 two ≡ ok deleted
unfolding init_with_special add_tuple_at slot_kind is_checked pd_lower pd_upper pd_special
    set_pd_lower set_pd_upper read_u16 write_u16 read_u32 write_u32 slot_count free_space place
    set_line_pointer raw_line_pointer LinePointer.new LinePointer.flags LinePointer.flags_from_bits
    delete_tuple line_pointer
deletes = refl

second_read : tuple 1 two ≡ ok (some second_bytes)
second_read = tuple-add_tuple_at 1 second_bytes one two two_added

two_bytes : (i : ℕ) → two i < 2 ^ 8
unfolding init_with_special add_tuple_at slot_kind is_checked pd_lower pd_upper pd_special
    set_pd_lower set_pd_upper read_u16 write_u16 read_u32 write_u32 slot_count free_space place
    set_line_pointer raw_line_pointer LinePointer.new LinePointer.flags LinePointer.flags_from_bits
two_bytes i = ground arith

second_direct : LinePointer.flags (raw_line_pointer 1 two) ≢ redirect
unfolding init_with_special add_tuple_at slot_kind is_checked pd_lower pd_upper pd_special
    set_pd_lower set_pd_upper read_u16 write_u16 read_u32 write_u32 slot_count free_space place
    set_line_pointer raw_line_pointer LinePointer.new LinePointer.flags LinePointer.flags_from_bits
second_direct e = cc

delete_tuple_keeps_others_example :
    (slot_count deleted ≡ slot_count two)
    × (raw_line_pointer 1 deleted ≡ raw_line_pointer 1 two)
    × ((LinePointer.flags (raw_line_pointer 1 two) ≡ redirect) ⊎ (tuple 1 deleted ≡ tuple 1 two))
delete_tuple_keeps_others_example =
    delete_tuple_keeps_others 0 1 two deleted deletes (λ e. omega (arith, e))

abbrev chained : Buffer
chained = copy_from_slice (pd_special fresh) (to_le_bytes 8 5) fresh

chains : set_next_page (some 5) fresh ≡ ok chained
unfolding init_with_special is_checked pd_lower pd_upper pd_special read_u16 write_u16 set_next_page
    has_chain
chains = refl
