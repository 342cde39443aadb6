-- ===== src/Heap/Page/Chain.antt =====
-- The chain of a relation's pages: `set_next_page` and `next_page` of
-- crates/pg-am-heap/src/slotted_page.rs.
use ams.Common.{
  ℕ, ◌-◌, ◌^◌, ◌≤◌, ◌<◌, ◌≡◌, refl, ap, ◌∙◌, inl, Bool, true, false, not, Option, none, some, List,
  arith, ◌==◌, if◌then◌else◌,
}
use ams.Storage.LittleEndian.{to_le_bytes, from_le_bytes, from_le_bytes-to_le_bytes}
use ams.Heap.Bytes.{Buffer, copy_from_slice, slice, read_u16, copy_outside, slice-copy}
use ams.Heap.Page.{
  Result, ok, err, corrupted, page_size, pd_lower, pd_upper, pd_special, is_checked,
}

-- `HEAP_SPECIAL_SIZE`
abbrev pub heap_special_size : ℕ
heap_special_size = 16

-- Both operations check the geometry and the size of the special space.
unfoldable pub has_chain : Buffer → Bool
has_chain page =
    if not (is_checked page) then false else pd_special page == page_size - heap_special_size

-- 0 stands for no next page.
abbrev pub raw_page_id : Option ℕ → ℕ
raw_page_id none = 0
raw_page_id (some p) = p

unfoldable pub set_next_page : Option ℕ → Buffer → Result Buffer
set_next_page next page =
    if has_chain page
    then ok (copy_from_slice (pd_special page) (to_le_bytes 8 (raw_page_id next)) page)
    else err corrupted

unfoldable pub next_page : Buffer → Result (Option ℕ)
next_page page =
    let raw = from_le_bytes (slice 8 (pd_special page) page) in
    if has_chain page then ok (if raw == 0 then none else some raw) else err corrupted

-- A page id is a positive number of 64 bits.
abbrev pub IsPageId : Option ℕ → Type 0
IsPageId none = Unit
IsPageId (some p) = (0 < p) × (p < 2 ^ 64)

module _ (bytes : List ℕ) (page : Buffer) (far : 20 ≤ pd_special page) where
  abbrev written : Buffer
  written = copy_from_slice (pd_special page) bytes page

  kept : (i : ℕ) → i < 20 → written i ≡ page i
  kept i h = copy_outside (pd_special page) i bytes page (inl (omega (arith, far)))

  kept-pd_lower : pd_lower written ≡ pd_lower page
  unfolding pd_lower read_u16
  kept-pd_lower = ground (arith, kept 14, kept 15)

  kept-pd_upper : pd_upper written ≡ pd_upper page
  unfolding pd_upper read_u16
  kept-pd_upper = ground (arith, kept 16, kept 17)

  kept-pd_special : pd_special written ≡ pd_special page
  unfolding pd_special read_u16
  kept-pd_special = ground (arith, kept 18, kept 19)

  kept-has_chain : has_chain written ≡ has_chain page
  unfolding has_chain is_checked
  kept-has_chain = rw (kept-pd_lower, kept-pd_upper, kept-pd_special) refl

abbrev answer : ℕ → Result (Option ℕ)
answer raw = ok (if raw == 0 then none else some raw)

raw_small : (next : Option ℕ) → IsPageId next → raw_page_id next < 2 ^ 64
raw_small none h = omega arith
raw_small (some p) h = h.1

answer_lem : (next : Option ℕ) → IsPageId next → answer (raw_page_id next) ≡ ok next
answer_lem none h = refl
answer_lem (some p) h = ground (arith, h.0)

-- The next page that was set is the next page that is read, also that there is none.
pub next_page-set_next_page :
    (next : Option ℕ) (page page' : Buffer)
    → IsPageId next
    → set_next_page next page ≡ ok page'
    → next_page page' ≡ ok next
unfolding set_next_page next_page
next_page-set_next_page next page page' valid h =
    let bytes = to_le_bytes 8 (raw_page_id next) in
    let chained : has_chain page ≡ true = ground arith in
    let special : pd_special page ≡ 8176 = unfold has_chain in ground (arith, chained) in
    let far : 20 ≤ pd_special page = omega (arith, special) in
    let is : page' ≡ copy_from_slice (pd_special page) bytes page = ground arith in
    rw (is, kept-has_chain bytes page far, kept-pd_special bytes page far, chained)
      (ap (λ (t : List ℕ). answer (from_le_bytes t)) (slice-copy (pd_special page) bytes page)
        ∙ (ap answer (from_le_bytes-to_le_bytes 8 (raw_page_id next) (raw_small next valid))
            ∙ answer_lem next valid))
