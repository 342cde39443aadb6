-- ===== src/Heap/Page/Tuples.antt =====
-- Adding a tuple to a page: it can be read back, and the other tuples are as before.
use ams.Common.{
  ℕ, ◌+◌, ◌-◌, ◌%◌, ◌^◌, ◌≤◌, ◌<◌, ◌≡◌, ◌≢◌, sym, ap, ◌∙◌, ◌⊎◌, inl, inr, Bool, true, Option, none,
  some, List, length, arith, ◌==◌, if◌then◌else◌,
}
use ams.Heap.Bytes.{Buffer, slice}
use ams.Heap.LinePointer
use ams.Heap.LinePointer.{LpFlags, unused, normal, redirect, dead}
use ams.Heap.Page.{
  ok, line_pointer_size, pd_lower, pd_upper, pd_special, is_checked, lp_offset, raw_line_pointer,
  line_pointer, place, lp_cost, slot_count, free_space, slot_kind, add_tuple_at, read_region,
  tuple_loop, tuple, is_normal,
}
use ams.Heap.Page.Place.{
  IsLaidOut, is_checked-IsLaidOut, IsLaidOut-is_checked, place-pd_upper, place-pd_lower,
  place-pd_special, place-IsLaidOut, place-raw_line_pointer, place-other_line_pointer,
  place-slice_new, place-slice_old,
}

-- A line pointer is appended at the end of the array.
abbrev pub appends : ℕ → Buffer → Bool
appends slot page = slot == slot_count page

-- What a successful `add_tuple_at` has checked, and the page it makes.
pub record IsAdded (slot : ℕ) (bytes : List ℕ) (page page' : Buffer) : Type 0 where
  pub laid_out : IsLaidOut page
  pub position : slot ≤ slot_count page
  pub room : length bytes + lp_cost (appends slot page) ≤ pd_upper page - pd_lower page
  pub written : page' ≡ place slot bytes (appends slot page) page

pub add_tuple_at_inversion :
    (slot : ℕ) (bytes : List ℕ) (page page' : Buffer)
    → add_tuple_at slot bytes page ≡ ok page'
    → IsAdded slot bytes page page'
unfolding add_tuple_at slot_kind
add_tuple_at_inversion slot bytes page page' h = record {
  laid_out = is_checked-IsLaidOut page (ground arith);
  position = ground arith;
  room = ground arith;
  written = ground arith;
}

-- The line pointers of the array end at `pd_lower`.
lp_inside :
    (page : Buffer) (slot : ℕ)
    → IsLaidOut page
    → slot ≤ slot_count page
    → lp_offset slot + line_pointer_size ≤ pd_lower page + lp_cost (appends slot page)
unfolding slot_count
lp_inside page slot h le = ground (arith, h.above_header, h.on_boundary)

lp_within :
    (page : Buffer) (j : ℕ)
    → IsLaidOut page
    → j < slot_count page
    → lp_offset j + line_pointer_size ≤ pd_lower page
unfolding slot_count
lp_within page j h lt = omega (arith, h.above_header, h.on_boundary)

line_pointer_lem :
    (slot : ℕ) (page : Buffer)
    → IsLaidOut page
    → slot < slot_count page
    → line_pointer slot page ≡ ok (raw_line_pointer slot page)
unfolding line_pointer
line_pointer_lem slot page h lt = ground (arith, IsLaidOut-is_checked page h)

-- `tuple` at a normal line pointer whose region is inside.
tuple_normal :
    (slot : ℕ) (page : Buffer)
    → IsLaidOut page
    → slot < slot_count page
    → LinePointer.flags (raw_line_pointer slot page) ≡ normal
    → tuple slot page ≡ read_region (raw_line_pointer slot page) page
unfolding tuple tuple_loop
tuple_normal slot page h lt n = ground (arith, line_pointer_lem slot page h lt)

pub read_region_lem :
    (l : ℕ) (page : Buffer)
    → pd_upper page ≤ LinePointer.off l
    → LinePointer.off l + LinePointer.len l ≤ pd_special page
    → read_region l page ≡ ok (some (slice (LinePointer.len l) (LinePointer.off l) page))
unfolding read_region
read_region_lem l page a b = ground arith

-- `tuple` at a line pointer that is no redirect, and beyond the array.
pub tuple_direct :
    (j : ℕ) (page : Buffer)
    → IsLaidOut page
    → j < slot_count page
    → LinePointer.flags (raw_line_pointer j page) ≢ redirect
    → tuple j page ≡ (
        if is_normal (LinePointer.flags (raw_line_pointer j page))
        then read_region (raw_line_pointer j page) page
        else ok none)
unfolding tuple tuple_loop
tuple_direct j page h lt direct = ground (arith, line_pointer_lem j page h lt)

pub tuple_beyond :
    (j : ℕ) (page : Buffer) → IsLaidOut page → slot_count page ≤ j → tuple j page ≡ ok none
unfolding tuple tuple_loop line_pointer
tuple_beyond j page h le = ground (arith, IsLaidOut-is_checked page h)

pub read_region_inside :
    (l : ℕ) (page : Buffer) (found : Option (List ℕ))
    → read_region l page ≡ ok found
    → (pd_upper page ≤ LinePointer.off l)
      × (LinePointer.off l + LinePointer.len l ≤ pd_special page)
      × (some (slice (LinePointer.len l) (LinePointer.off l) page) ≡ found)
unfolding read_region
read_region_inside l page found h = (ground arith, ground arith, ground arith)

module _ (slot : ℕ) (bytes : List ℕ) (page : Buffer) (laid_out : IsLaidOut page)
    (position : slot ≤ slot_count page)
    (room : length bytes + lp_cost (appends slot page) ≤ pd_upper page - pd_lower page) where
  abbrev after : Buffer
  after = place slot bytes (appends slot page) page

  inside : lp_offset slot + line_pointer_size ≤ pd_lower page + lp_cost (appends slot page)
  inside = lp_inside page slot laid_out position

  after-IsLaidOut : IsLaidOut after
  after-IsLaidOut = place-IsLaidOut page slot bytes (appends slot page) laid_out inside room

  count_after :
      slot_count after ≡ (if appends slot page then slot_count page + 1 else slot_count page)
  unfolding slot_count
  count_after = ground (
    arith,
    place-pd_lower page slot bytes (appends slot page) laid_out inside room,
    laid_out.above_header,
  )

  grows : slot_count page ≤ slot_count after
  grows = ground (arith, count_after)

  slot_inside : slot < slot_count after
  slot_inside = ground (arith, count_after, position)

  fields :
      (LinePointer.off (raw_line_pointer slot after) ≡ pd_upper page - length bytes)
      × (LinePointer.flags (raw_line_pointer slot after) ≡ normal)
      × (LinePointer.len (raw_line_pointer slot after) ≡ length bytes)
  fields =
      let small : pd_upper page < 2 ^ 15 =
        omega (arith, laid_out.upper_special, laid_out.special_end) in
      let o : (pd_upper page - length bytes) % 2 ^ 16 ≡ pd_upper page - length bytes =
        omega arith in
      let l : length bytes % 2 ^ 16 ≡ length bytes = omega (arith, room) in
      let (po, pf, pl, _) =
        LinePointer.new_lem (pd_upper page - length bytes) (length bytes) normal (omega arith)
          (omega (arith, room)) in
      rw (place-raw_line_pointer page slot bytes (appends slot page) laid_out inside room, o, l)
        (po, pf, pl)

  same_bytes :
      slice
        (LinePointer.len (raw_line_pointer slot after))
        (LinePointer.off (raw_line_pointer slot after))
        after
      ≡ bytes
  same_bytes =
      ap (λ (n : ℕ). slice n (LinePointer.off (raw_line_pointer slot after)) after) fields.2
      ∙ (ap (λ (o : ℕ). slice (length bytes) o after) fields.0
          ∙ place-slice_new page slot bytes (appends slot page) laid_out inside room)

  added_tuple : tuple slot after ≡ ok (some bytes)
  added_tuple =
      tuple_normal slot after after-IsLaidOut slot_inside fields.1
      ∙ (read_region_lem (raw_line_pointer slot after) after
            (omega (
              arith,
              fields.0,
              place-pd_upper page slot bytes (appends slot page) laid_out inside room,
            ))
            (omega (
              arith,
              fields.0,
              fields.2,
              room,
              laid_out.lower_upper,
              laid_out.upper_special,
              place-pd_special page slot bytes (appends slot page) laid_out inside room,
            ))
          ∙ ap (λ (t : List ℕ). ok (some t)) same_bytes)

  other_region :
      (l : ℕ) (found : Option (List ℕ))
      → read_region l page ≡ ok found
      → read_region l after ≡ ok found
  other_region l found h =
      let (low, high, same) = read_region_inside l page found h in
      read_region_lem l after
        (omega
          (arith, low, place-pd_upper page slot bytes (appends slot page) laid_out inside room))
        (omega
          (arith, high, place-pd_special page slot bytes (appends slot page) laid_out inside room))
      ∙ ap (λ (t : Option (List ℕ)). ok t)
          (ap (λ (t : List ℕ). some t)
              (place-slice_old page slot bytes (appends slot page) laid_out inside room _ _ low)
            ∙ same)

  other_inside :
      (j : ℕ) (found : Option (List ℕ))
      → j ≢ slot
      → j < slot_count page
      → LinePointer.flags (raw_line_pointer j page) ≢ redirect
      → tuple j page ≡ ok found
      → tuple j after ≡ ok found
  other_inside j found ne lt direct before =
      let same =
        place-other_line_pointer page slot bytes (appends slot page) laid_out inside room j ne
          (omega (arith, lp_within page j laid_out lt)) in
      let now = tuple_direct j after after-IsLaidOut (omega (arith, grows, lt)) (rw same direct) in
      ground (
        arith,
        rw same at now,
        tuple_direct j page laid_out lt direct,
        before,
        other_region (raw_line_pointer j page) found,
      )

  other_tuple :
      (j : ℕ) (found : Option (List ℕ))
      → j ≢ slot
      → LinePointer.flags (raw_line_pointer j page) ≢ redirect
      → tuple j page ≡ ok found
      → tuple j after ≡ ok found
  other_tuple j found ne direct before = elim (side j (slot_count page)) [
    | inl lt ↦ other_inside j found ne lt direct before
    | inr le ↦
        tuple_beyond j after after-IsLaidOut (ground (arith, count_after, le, ne))
        ∙ (sym (tuple_beyond j page laid_out le) ∙ before)
  ]
    where
      side : (a b : ℕ) → (a < b) ⊎ (b ≤ a)
      side a b = omega arith

  after_geometry :
      (is_checked after ≡ true)
      × (pd_special after ≡ pd_special page)
      × (free_space after + (length bytes + lp_cost (appends slot page)) ≡ free_space page)
  unfolding free_space
  after_geometry = (
    IsLaidOut-is_checked after after-IsLaidOut,
    place-pd_special page slot bytes (appends slot page) laid_out inside room,
    omega (
      arith,
      place-pd_upper page slot bytes (appends slot page) laid_out inside room,
      place-pd_lower page slot bytes (appends slot page) laid_out inside room,
      room,
      laid_out.lower_upper,
    ),
  )

-- A tuple that was added is read back from its slot.
pub tuple-add_tuple_at :
    (slot : ℕ) (bytes : List ℕ) (page page' : Buffer)
    → add_tuple_at slot bytes page ≡ ok page'
    → tuple slot page' ≡ ok (some bytes)
tuple-add_tuple_at slot bytes page page' h =
    let a = add_tuple_at_inversion slot bytes page page' h in
    rw a.written (added_tuple slot bytes page a.laid_out a.position a.room)

-- A tuple at another slot, which is not a redirect, is read as before.
pub add_tuple_at_keeps_others :
    (slot j : ℕ) (bytes : List ℕ) (page page' : Buffer) (found : Option (List ℕ))
    → add_tuple_at slot bytes page ≡ ok page'
    → j ≢ slot
    → LinePointer.flags (raw_line_pointer j page) ≢ redirect
    → tuple j page ≡ ok found
    → tuple j page' ≡ ok found
add_tuple_at_keeps_others slot j bytes page page' found h ne direct before =
    let a = add_tuple_at_inversion slot bytes page page' h in
    rw a.written (other_tuple slot bytes page a.laid_out a.position a.room j found ne direct before)

-- Adding a tuple keeps the page's geometry sound and its special space in place, and takes from the
-- free space the tuple's bytes, and a line pointer's unless a slot is recycled.
pub add_tuple_at_geometry :
    (slot : ℕ) (bytes : List ℕ) (page page' : Buffer)
    → add_tuple_at slot bytes page ≡ ok page'
    → (is_checked page' ≡ true)
      × (pd_special page' ≡ pd_special page)
      × (free_space page'
            + (length bytes + (if slot == slot_count page then line_pointer_size else 0))
          ≡ free_space page)
add_tuple_at_geometry slot bytes page page' h =
    let a = add_tuple_at_inversion slot bytes page page' h in
    rw a.written (after_geometry slot bytes page a.laid_out a.position a.room)
