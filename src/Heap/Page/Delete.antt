-- ===== src/Heap/Page/Delete.antt =====
-- Deleting a tuple from a page.
use ams.Common.{
  ℕ, ◌+◌, ◌^◌, ◌≤◌, ◌<◌, ◌≡◌, ◌≢◌, refl, sym, ap, ◌∙◌, ◌⊎◌, inl, inr, Option, none, List, true,
  ◌||◌, ltb, if◌then◌else◌, arith,
}
use ams.Heap.Bytes.{Buffer, read_u16, read_u32, read_u32-write, write_u32_outside, slice_same}
use ams.Heap.LinePointer
use ams.Heap.LinePointer.{LpFlags, unused, normal, redirect, dead}
use ams.Heap.Page.{
  ok, pd_lower, pd_upper, pd_special, lp_offset, raw_line_pointer, set_line_pointer, line_pointer,
  Result, slot_count, delete_tuple, tuple, read_region, is_normal,
}
use ams.Heap.Page.Place.{IsLaidOut, is_checked-IsLaidOut}
use ams.Heap.Page.Tuples.{tuple_direct, tuple_beyond}

-- What a successful `delete_tuple` has checked, and the page it makes.
pub record IsDeleted (slot : ℕ) (page page' : Buffer) : Type 0 where
  pub laid_out : IsLaidOut page
  pub position : slot < slot_count page
  pub was_normal : LinePointer.flags (raw_line_pointer slot page) ≡ normal
  pub written :
      page'
      ≡ set_line_pointer slot (LinePointer.with_flags unused (raw_line_pointer slot page)) page

pub delete_tuple_inversion :
    (slot : ℕ) (page page' : Buffer) → delete_tuple slot page ≡ ok page' → IsDeleted slot page page'
unfolding delete_tuple line_pointer
delete_tuple_inversion slot page page' h = record {
  laid_out = is_checked-IsLaidOut page (ground arith);
  position = ground arith;
  was_normal = ground arith;
  written = ground arith;
}

module _ (slot : ℕ) (lp : ℕ) (page : Buffer) (laid_out : IsLaidOut page) where
  abbrev after : Buffer
  after = set_line_pointer slot lp page

  kept : (i : ℕ) → (i < lp_offset slot) ⊎ (lp_offset slot + 4 ≤ i) → after i ≡ page i
  unfolding set_line_pointer
  kept i h = write_u32_outside (lp_offset slot) lp i page h

  after-pd_lower : pd_lower after ≡ pd_lower page
  unfolding pd_lower read_u16
  after-pd_lower = ground (arith, kept 14, kept 15)

  after-pd_upper : pd_upper after ≡ pd_upper page
  unfolding pd_upper read_u16
  after-pd_upper = ground (arith, kept 16, kept 17)

  after-pd_special : pd_special after ≡ pd_special page
  unfolding pd_special read_u16
  after-pd_special = ground (arith, kept 18, kept 19)

  after-slot_count : slot_count after ≡ slot_count page
  unfolding slot_count
  after-slot_count = rw after-pd_lower refl

  after-IsLaidOut : IsLaidOut after
  after-IsLaidOut = record {
    above_header = rw after-pd_lower laid_out.above_header;
    on_boundary = rw after-pd_lower laid_out.on_boundary;
    lower_upper = rw (after-pd_lower, after-pd_upper) laid_out.lower_upper;
    upper_special = rw (after-pd_upper, after-pd_special) laid_out.upper_special;
    special_end = rw after-pd_special laid_out.special_end;
  }

  other_line_pointer : (j : ℕ) → j ≢ slot → raw_line_pointer j after ≡ raw_line_pointer j page
  unfolding raw_line_pointer read_u32
  other_line_pointer j ne = ground (
    arith,
    kept (lp_offset j),
    kept (lp_offset j + 1),
    kept (lp_offset j + 2),
    kept (lp_offset j + 3),
  )

  other_region : (l : ℕ) → slot < slot_count page → read_region l after ≡ read_region l page
  unfolding read_region slot_count
  other_region l lt = elim (outside l) [
    | inl out ↦ rw (after-pd_upper, after-pd_special) (rw out refl)
    | inr inside ↦
        let equal = slice_same (LinePointer.len l) (LinePointer.off l) after page (λ i lo hi.
          kept i
            (inr (omega (arith, inside, lo, lt, laid_out.above_header, laid_out.lower_upper)))) in
        rw (after-pd_upper, after-pd_special, equal) refl
  ]
    where
      outside :
          (l : ℕ)
          → ((ltb (LinePointer.off l) (pd_upper page)
                || ltb (pd_special page) (LinePointer.off l + LinePointer.len l))
              ≡ true)
            ⊎ (pd_upper page ≤ LinePointer.off l)
      outside l = ground arith

  other_tuple :
      (j : ℕ)
      → j ≢ slot
      → slot < slot_count page
      → LinePointer.flags (raw_line_pointer j page) ≢ redirect
      → tuple j after ≡ tuple j page
  other_tuple j ne lt direct = elim (side j (slot_count page)) [
    | inl within ↦
        let same = other_line_pointer j ne in
        let now =
          tuple_direct j after after-IsLaidOut (omega (arith, after-slot_count, within))
            (rw same direct) in
        rw same at now
        ∙ ap
            (λ (r : Result (Option (List ℕ))).
              if is_normal (LinePointer.flags (raw_line_pointer j page)) then r else ok none)
            (other_region (raw_line_pointer j page) lt)
        ∙ sym (tuple_direct j page laid_out within direct)
    | inr le ↦
        tuple_beyond j after after-IsLaidOut (omega (arith, after-slot_count, le))
        ∙ sym (tuple_beyond j page laid_out le)
  ]
    where
      side : (a b : ℕ) → (a < b) ⊎ (b ≤ a)
      side a b = omega arith

  cleared_tuple :
      slot < slot_count page
      → (LinePointer.flags lp ≡ unused)
      → lp < 2 ^ 32
      → tuple slot after ≡ ok none
  cleared_tuple lt gone small =
      let read : raw_line_pointer slot after ≡ lp =
        unfold raw_line_pointer set_line_pointer in read_u32-write (lp_offset slot) lp page small in
      let flagged : LinePointer.flags (raw_line_pointer slot after) ≡ unused = rw read gone in
      tuple_direct slot after after-IsLaidOut (omega (arith, after-slot_count, lt))
        (rw flagged (λ e. cc))
      ∙ rw flagged refl

raw_small :
    (slot : ℕ) (page : Buffer) → ((i : ℕ) → page i < 2 ^ 8) → raw_line_pointer slot page < 2 ^ 32
unfolding raw_line_pointer read_u32
raw_small slot page h = omega (
  arith,
  h (lp_offset slot),
  h (lp_offset slot + 1),
  h (lp_offset slot + 2),
  h (lp_offset slot + 3),
)

-- The page is a buffer of bytes. A tuple that was deleted is not found at its slot any more.
pub tuple-delete_tuple :
    (slot : ℕ) (page page' : Buffer)
    → ((i : ℕ) → page i < 2 ^ 8)
    → delete_tuple slot page ≡ ok page'
    → tuple slot page' ≡ ok none
tuple-delete_tuple slot page page' bytes h =
    let d = delete_tuple_inversion slot page page' h in
    rw d.written (
      cleared_tuple slot _ page d.laid_out d.position
        (LinePointer.with_flags_lem (raw_line_pointer slot page) unused
          (raw_small slot page bytes)).1
        (LinePointer.with_flags_lem (raw_line_pointer slot page) unused
          (raw_small slot page bytes)).3)

-- Deleting a tuple leaves the number of slots, and the line pointer of every other slot, bit for bit;
-- a slot that is not a redirect reads as before, errors included.
pub delete_tuple_keeps_others :
    (slot j : ℕ) (page page' : Buffer)
    → delete_tuple slot page ≡ ok page'
    → j ≢ slot
    → (slot_count page' ≡ slot_count page)
      × (raw_line_pointer j page' ≡ raw_line_pointer j page)
      × ((LinePointer.flags (raw_line_pointer j page) ≡ redirect) ⊎ (tuple j page' ≡ tuple j page))
delete_tuple_keeps_others slot j page page' h ne =
    let d = delete_tuple_inversion slot page page' h in
    let lp = LinePointer.with_flags unused (raw_line_pointer slot page) in
    rw d.written (
      after-slot_count slot lp page d.laid_out,
      other_line_pointer slot lp page d.laid_out j ne,
      elim (redirect_or_not (LinePointer.flags (raw_line_pointer j page))) [
        | inl jumps ↦ inl jumps
        | inr direct ↦ inr (other_tuple slot lp page d.laid_out j ne d.position direct)
      ],
    )
  where
    redirect_or_not : (f : LpFlags) → (f ≡ redirect) ⊎ (f ≢ redirect)
    redirect_or_not unused = inr (λ e. cc)
    redirect_or_not normal = inr (λ e. cc)
    redirect_or_not redirect = inl refl
    redirect_or_not dead = inr (λ e. cc)
