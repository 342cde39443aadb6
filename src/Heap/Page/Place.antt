-- ===== src/Heap/Page/Place.antt =====
-- What the writes of `add_tuple_at` change on a page, and what they leave alone.
use ams.Common.{
  ℕ, ◌+◌, ◌-◌, ◌%◌, ◌^◌, ◌≤◌, ◌<◌, ◌≡◌, ◌≢◌, ◌∙◌, ◌⊎◌, Bool, true, false, List, length, arith,
  if◌then◌else◌,
}
use ams.Heap.Bytes.{
  Buffer, copy_from_slice, slice, read_u16, read_u32, copy_outside, slice_same, slice-copy,
  read_u16-write, read_u32-write, write_u16_outside, write_u32_outside,
}
use ams.Heap.LinePointer
use ams.Heap.LinePointer.{LpFlags, unused, normal, redirect, dead}
use ams.Heap.Page.{
  page_size, page_header_size, line_pointer_size, pd_lower, pd_upper, pd_special, set_pd_lower,
  set_pd_upper, is_checked, lp_offset, raw_line_pointer, set_line_pointer, place, lp_cost,
}

-- The geometry that the check stands for.
pub record IsLaidOut (page : Buffer) : Type 0 where
  pub above_header : page_header_size ≤ pd_lower page
  pub on_boundary : (pd_lower page - page_header_size) % line_pointer_size ≡ 0
  pub lower_upper : pd_lower page ≤ pd_upper page
  pub upper_special : pd_upper page ≤ pd_special page
  pub special_end : pd_special page ≤ page_size

pub is_checked-IsLaidOut : (page : Buffer) → is_checked page ≡ true → IsLaidOut page
unfolding is_checked
is_checked-IsLaidOut page h = record {
  above_header = ground arith;
  on_boundary = ground arith;
  lower_upper = ground arith;
  upper_special = ground arith;
  special_end = ground arith;
}

pub IsLaidOut-is_checked : (page : Buffer) → IsLaidOut page → is_checked page ≡ true
unfolding is_checked
IsLaidOut-is_checked page h =
    ground (arith, h.above_header, h.on_boundary, h.lower_upper, h.upper_special, h.special_end)

lower_after :
    (appending : Bool) (lower : ℕ) (page : Buffer)
    → lower ≤ page_size
    → pd_lower page ≡ lower
    → pd_lower
        (if appending then set_pd_lower ((lower + line_pointer_size) % 2 ^ 16) page else page)
      ≡ lower + lp_cost appending
unfolding pd_lower set_pd_lower
lower_after true lower page small h =
    omega (arith, read_u16-write 14 ((lower + line_pointer_size) % 2 ^ 16) page (omega arith))
lower_after false lower page small h = omega (arith, h)

set_pd_upper-keeps : (v : ℕ) (page : Buffer) → pd_lower (set_pd_upper v page) ≡ pd_lower page
unfolding pd_lower set_pd_upper read_u16
set_pd_upper-keeps v page =
    ground (arith, write_u16_outside 16 v 14 page, write_u16_outside 16 v 15 page)

-- There is room for the tuple and for its line pointer, whose place is in the array or next to it.
module _ (page : Buffer) (slot : ℕ) (bytes : List ℕ) (appending : Bool) (laid_out : IsLaidOut page)
    (inside : lp_offset slot + line_pointer_size ≤ pd_lower page + lp_cost appending)
    (room : length bytes + lp_cost appending ≤ pd_upper page - pd_lower page) where
  abbrev pub new_upper : ℕ
  new_upper = pd_upper page - length bytes

  abbrev pub lp : ℕ
  lp = LinePointer.new (new_upper % 2 ^ 16) normal (length bytes % 2 ^ 16)

  abbrev pointed : Buffer
  pointed = set_line_pointer slot lp (copy_from_slice new_upper bytes page)

  abbrev lowered : Buffer
  lowered =
      if appending
      then set_pd_lower ((pd_lower page + line_pointer_size) % 2 ^ 16) pointed
      else pointed

  lowered_outside : (i : ℕ) → (i < 14) ⊎ (16 ≤ i) → lowered i ≡ pointed i
  unfolding set_pd_lower
  lowered_outside i h =
      ground (arith, write_u16_outside 14 ((pd_lower page + line_pointer_size) % 2 ^ 16) i pointed)

  -- Outside the two fields of the header, the line pointer and the tuple's bytes.
  pub place_outside :
      (i : ℕ)
      → (i < 14) ⊎ (18 ≤ i)
      → (i < lp_offset slot) ⊎ (lp_offset slot + 4 ≤ i)
      → place slot bytes appending page i ≡ copy_from_slice new_upper bytes page i
  unfolding place set_pd_upper set_line_pointer
  place_outside i header pointer = ground (
    arith,
    write_u16_outside 16 (new_upper % 2 ^ 16) i lowered,
    lowered_outside i,
    write_u32_outside (lp_offset slot) lp i (copy_from_slice new_upper bytes page),
  )

  pub place_kept :
      (i : ℕ)
      → (i < 14) ⊎ (18 ≤ i)
      → (i < lp_offset slot) ⊎ (lp_offset slot + 4 ≤ i)
      → (i < new_upper) ⊎ (pd_upper page ≤ i)
      → place slot bytes appending page i ≡ page i
  place_kept i header pointer tuple =
      place_outside i header pointer ∙ copy_outside new_upper i bytes page (ground arith)

  place_body : (i : ℕ) → 18 ≤ i → place slot bytes appending page i ≡ pointed i
  unfolding place set_pd_upper
  place_body i h =
      ground (arith, write_u16_outside 16 (new_upper % 2 ^ 16) i lowered, lowered_outside i)

  pub place-pd_upper : pd_upper (place slot bytes appending page) ≡ new_upper
  unfolding place set_pd_upper pd_upper
  place-pd_upper = omega (
    arith,
    read_u16-write 16 (new_upper % 2 ^ 16) lowered (omega arith),
    laid_out.upper_special,
    laid_out.special_end,
  )

  header_kept : (i : ℕ) → i < 32 → pointed i ≡ page i
  unfolding set_line_pointer
  header_kept i h = ground (
    arith,
    write_u32_outside (lp_offset slot) lp i (copy_from_slice new_upper bytes page),
    copy_outside new_upper i bytes page,
    laid_out.above_header,
    laid_out.lower_upper,
  )

  pointed-pd_lower : pd_lower pointed ≡ pd_lower page
  unfolding pd_lower read_u16
  pointed-pd_lower = ground (arith, header_kept 14, header_kept 15)

  pub place-pd_lower :
      pd_lower (place slot bytes appending page) ≡ pd_lower page + lp_cost appending
  unfolding place
  place-pd_lower =
      set_pd_upper-keeps (new_upper % 2 ^ 16) lowered
      ∙ lower_after appending (pd_lower page) pointed
          (omega (arith, laid_out.lower_upper, laid_out.upper_special, laid_out.special_end))
          pointed-pd_lower

  pub place-pd_special : pd_special (place slot bytes appending page) ≡ pd_special page
  unfolding pd_special read_u16
  place-pd_special = ground (arith, place_body 18, place_body 19, header_kept 18, header_kept 19)

  pub place-IsLaidOut : IsLaidOut (place slot bytes appending page)
  place-IsLaidOut = record {
    above_header = omega (arith, place-pd_lower, laid_out.above_header);
    on_boundary = ground (arith, place-pd_lower, laid_out.above_header, laid_out.on_boundary);
    lower_upper = omega (arith, place-pd_lower, place-pd_upper, room, laid_out.lower_upper);
    upper_special = omega (arith, place-pd_upper, place-pd_special, laid_out.upper_special);
    special_end = omega (arith, place-pd_special, laid_out.special_end);
  }

  lp_small : lp < 2 ^ 32
  lp_small =
      (LinePointer.new_lem (new_upper % 2 ^ 16) (length bytes % 2 ^ 16) normal
        (omega (arith, laid_out.upper_special, laid_out.special_end))
        (omega (arith, laid_out.upper_special, laid_out.special_end, room))).3

  pointer_written : read_u32 (lp_offset slot) pointed ≡ lp
  unfolding set_line_pointer
  pointer_written =
      read_u32-write (lp_offset slot) lp (copy_from_slice new_upper bytes page) lp_small

  pub place-raw_line_pointer : raw_line_pointer slot (place slot bytes appending page) ≡ lp
  unfolding raw_line_pointer read_u32
  place-raw_line_pointer = ground (
    arith,
    place_body (lp_offset slot),
    place_body (lp_offset slot + 1),
    place_body (lp_offset slot + 2),
    place_body (lp_offset slot + 3),
    pointer_written,
  )

  pub place-other_line_pointer :
      (j : ℕ)
      → j ≢ slot
      → lp_offset j + line_pointer_size ≤ pd_lower page + lp_cost appending
      → raw_line_pointer j (place slot bytes appending page) ≡ raw_line_pointer j page
  unfolding raw_line_pointer read_u32
  place-other_line_pointer j ne h = ground (
    arith,
    place_kept (lp_offset j),
    place_kept (lp_offset j + 1),
    place_kept (lp_offset j + 2),
    place_kept (lp_offset j + 3),
    laid_out.lower_upper,
  )

  pub place-slice_new : slice (length bytes) new_upper (place slot bytes appending page) ≡ bytes
  place-slice_new =
      slice_same (length bytes) new_upper _ (copy_from_slice new_upper bytes page) (λ i lo hi.
        place_outside i (omega (arith, laid_out.above_header))
          (omega (arith, inside, room, laid_out.lower_upper)))
      ∙ slice-copy new_upper bytes page

  pub place-slice_old :
      (o n : ℕ) → pd_upper page ≤ o → slice n o (place slot bytes appending page) ≡ slice n o page
  place-slice_old o n h = slice_same n o _ page (λ i lo hi.
      place_kept i (omega (arith, laid_out.above_header, laid_out.lower_upper))
        (omega (arith, inside, room, laid_out.lower_upper)) (omega arith))
