-- ===== src/Heap/Tuple/Bits.antt =====
-- The structural bits of a header: crates/pg-am-heap/src/tuple.rs.
use Prim.Native.Nat.{bit_and, bit_or, max}
use ams.Common.{
  ℕ, ◌/◌, ◌%◌, ◌^◌, ◌≤◌, ◌<◌, ◌≡◌, refl, ap, ◌∙◌, Bool, true, false, not, Option, none, some, arith,
  ◌==◌,
}
use ams.Common.Bits.{
  bit_and-ones, bit_and-one, bit_and-zero, bit_or-digit, bit_and-digit, bit_or-zero, or_nothing,
  two_to, two_to_pos,
}
use ams.Common.Masks.{bit_or_low, bit_or_high, bit_and_low, bit_and_high}
use ams.Heap.TupleHeader.{TupleHeader, natts, max_natts, heap_hasnull, heap_has_nodeid}
use ams.Heap.TupleHeader.RoundTrip.{IsHeader}
use ams.Heap.Tuple.{Flags, bit_if, nodeid_bit, finish_header}

-- A mask that ends in a number of zeros clears the digits there.
clear_low : (n a m : ℕ) → m % two_to n ≡ 0 → bit_and a m % two_to n ≡ 0
clear_low n a m h =
    bit_and_low n a m
    ∙ ap (λ (t : ℕ). bit_and (a % two_to n) t % two_to n) h
    ∙ ap (λ (t : ℕ). t % two_to n) (bit_and-zero (a % two_to n))
    ∙ omega (arith, two_to_pos n)

-- A mask below a power of two.
clear_high : (n a m : ℕ) → m / two_to n ≡ 0 → bit_and a m / two_to n ≡ 0
clear_high n a m h =
    bit_and_high n a m ∙ ap (bit_and (a / two_to n)) h ∙ bit_and-zero (a / two_to n)

mod_twice : (a t : ℕ) → 0 < t → a % t % t ≡ a % t
mod_twice a t pos = grind arith

or_low : (n a b : ℕ) → b % two_to n ≡ 0 → bit_or a b % two_to n ≡ a % two_to n
or_low n a b h =
    bit_or_low n a b
    ∙ ap (λ (t : ℕ). bit_or (a % two_to n) t % two_to n) h
    ∙ ap (λ (t : ℕ). t % two_to n) (bit_or-zero (a % two_to n))
    ∙ mod_twice a (two_to n) (two_to_pos n)

or_high : (n a b : ℕ) → a / two_to n ≡ 0 → b / two_to n ≡ 0 → bit_or a b / two_to n ≡ 0
or_high n a b h k =
    bit_or_high n a b ∙ ap (λ (t : ℕ). bit_or t (b / two_to n)) h ∙ or_nothing (b / two_to n) ∙ k

or_low_left : (n a b : ℕ) → a % two_to n ≡ 0 → bit_or a b % two_to n ≡ b % two_to n
or_low_left n a b h =
    bit_or_low n a b
    ∙ ap (λ (t : ℕ). bit_or t (b % two_to n) % two_to n) h
    ∙ ap (λ (t : ℕ). t % two_to n) (or_nothing (b % two_to n))
    ∙ mod_twice b (two_to n) (two_to_pos n)

or_parity : (a b : ℕ) → bit_or a b % 2 ≡ max (a % 2) (b % 2)
or_parity a b = omega (arith, bit_or-digit a b)

and_parity : (a m : ℕ) → m % 2 ≡ 0 → bit_and a m % 2 ≡ 0
and_parity a m h = omega (arith, bit_and-digit a m)

-- The number of columns and the flag of a node id, in `t_infomask2`.
abbrev columns_word : ℕ → ℕ → ℕ → ℕ
columns_word old n flag = bit_or (bit_and (bit_or (bit_and old 0xF800) n) 0xF7FF) flag

module _ (old n flag : ℕ) where
  columns_lem : n < 2048 → flag % 2048 ≡ 0 → bit_and (columns_word old n flag) 0x7FF ≡ n
  columns_lem small clear =
      let inner = bit_or (bit_and old 0xF800) n in
      let a : bit_and old 0xF800 % 2048 ≡ 0 = clear_low 11 old 0xF800 refl in
      let b : inner % 2048 ≡ n % 2048 = or_low_left 11 (bit_and old 0xF800) n a in
      let c : bit_and inner 0xF7FF % 2048 ≡ inner % 2048 % 2048 % 2048 =
        bit_and_low 11 inner 0xF7FF ∙ ap (λ (t : ℕ). t % 2048) (bit_and-ones 11 (inner % 2048)) in
      let d : columns_word old n flag % 2048 ≡ bit_and inner 0xF7FF % 2048 =
        or_low 11 (bit_and inner 0xF7FF) flag clear in
      bit_and-ones 11 (columns_word old n flag) ∙ omega (arith, d, c, b, small)

  node_id_lem : flag % 2048 ≡ 0 → flag / 2048 < 2 → bit_and (columns_word old n flag) 0x800 ≡ flag
  node_id_lem clear bit =
      let word = columns_word old n flag in
      let inner = bit_or (bit_and old 0xF800) n in
      let low : bit_and word 0x800 % 2048 ≡ 0 = clear_low 11 word 0x800 refl in
      let high : bit_and word 0x800 / 2048 ≡ word / 2048 % 2 =
        bit_and_high 11 word 0x800 ∙ bit_and-one (word / 2048) in
      let above : word / 2048 ≡ bit_or (bit_and inner 0xF7FF / 2048) (flag / 2048) =
        bit_or_high 11 (bit_and inner 0xF7FF) flag in
      let masked : bit_and inner 0xF7FF / 2048 ≡ bit_and (inner / 2048) 30 =
        bit_and_high 11 inner 0xF7FF in
      let even : bit_and (inner / 2048) 30 % 2 ≡ 0 = and_parity (inner / 2048) 30 refl in
      omega (
        arith,
        low,
        high,
        above,
        masked,
        even,
        or_parity (bit_and inner 0xF7FF / 2048) (flag / 2048),
        clear,
        bit,
      )

  columns_bound : flag < 2 ^ 16 → columns_word old n flag < 2 ^ 16
  columns_bound small =
      let inner = bit_or (bit_and old 0xF800) n in
      let none_above : columns_word old n flag / 65536 ≡ 0 =
        or_high 16 (bit_and inner 0xF7FF) flag (clear_high 16 inner 0xF7FF refl)
          (omega (arith, small)) in
      omega (arith, none_above)

-- The flags of `t_infomask`.
abbrev flags_word : ℕ → ℕ → ℕ → ℕ → ℕ
flags_word old a b c = bit_or (bit_or (bit_or (bit_and old 0xFFF8) a) b) c

module _ (old a b c : ℕ) where
  has_null_lem : a < 2 → b % 2 ≡ 0 → c % 2 ≡ 0 → bit_and (flags_word old a b c) 1 ≡ a
  has_null_lem small even_b even_c =
      let x = bit_and old 0xFFF8 in
      omega (
        arith,
        bit_and-one (flags_word old a b c),
        or_parity (bit_or (bit_or x a) b) c,
        or_parity (bit_or x a) b,
        or_parity x a,
        and_parity old 0xFFF8 refl,
        small,
        even_b,
        even_c,
      )

  flags_bound : a < 2 ^ 16 → b < 2 ^ 16 → c < 2 ^ 16 → flags_word old a b c < 2 ^ 16
  flags_bound ha hb hc =
      let x = bit_and old 0xFFF8 in
      let one : bit_or x a / 65536 ≡ 0 =
        or_high 16 x a (clear_high 16 old 0xFFF8 refl) (omega (arith, ha)) in
      let two : bit_or (bit_or x a) b / 65536 ≡ 0 =
        or_high 16 (bit_or x a) b one (omega (arith, hb)) in
      let three : flags_word old a b c / 65536 ≡ 0 =
        or_high 16 (bit_or (bit_or x a) b) c two (omega (arith, hc)) in
      omega (arith, three)

bit_if_lem : (b : Bool) (m : ℕ) → bit_if b m ≤ m
bit_if_lem true m = omega arith
bit_if_lem false m = omega arith

bit_if_even : (b : Bool) (m : ℕ) → m % 2 ≡ 0 → bit_if b m % 2 ≡ 0
bit_if_even true m h = h
bit_if_even false m h = refl

flag_lem : (b : Bool) → not (bit_if b 1 == 0) ≡ b
flag_lem true = refl
flag_lem false = refl

abbrev pub has_node : Option ℕ → Bool
has_node none = false
has_node (some _) = true

nodeid_bit_lem :
    (id : Option ℕ)
    → (nodeid_bit id % 2048 ≡ 0) × (nodeid_bit id ≤ 2048) × (not (nodeid_bit id == 0) ≡ has_node id)
nodeid_bit_lem none = (refl, omega arith, refl)
nodeid_bit_lem (some _) = (refl, omega arith, refl)

module _ (header : TupleHeader) (n : ℕ) (flags : Flags) (t_hoff : ℕ) (node_id : Option ℕ) where
  abbrev finished : TupleHeader
  finished = finish_header header n flags t_hoff node_id

  -- The number of columns is that of the tuple.
  pub natts-finish_header : n ≤ max_natts → natts finished ≡ n
  unfolding finish_header natts
  natts-finish_header h =
      columns_lem header.t_infomask2 n (nodeid_bit node_id) (omega (arith, h))
        (nodeid_bit_lem node_id).0

  -- Whether there is a bitmap, and whether there is a node id.
  pub has_null-finish_header : not (bit_and finished.t_infomask heap_hasnull == 0) ≡ flags.has_null
  unfolding finish_header
  has_null-finish_header =
      let e =
        has_null_lem header.t_infomask (bit_if flags.has_null 1) (bit_if flags.has_varwidth 2)
          (bit_if flags.has_external 4) (omega (arith, bit_if_lem flags.has_null 1))
          (bit_if_even flags.has_varwidth 2 refl) (bit_if_even flags.has_external 4 refl) in
      rw e (flag_lem flags.has_null)

  pub node_id-finish_header :
      not (bit_and finished.t_infomask2 heap_has_nodeid == 0) ≡ has_node node_id
  unfolding finish_header
  node_id-finish_header =
      let (clear, bit, present) = nodeid_bit_lem node_id in
      rw (node_id_lem header.t_infomask2 n (nodeid_bit node_id) clear (omega (arith, bit))) present

  pub finish_header-IsHeader : IsHeader header → IsHeader finished
  unfolding finish_header
  finish_header-IsHeader is = record {
    t_xmin = is.t_xmin;
    t_xmax = is.t_xmax;
    t_agent_id = is.t_agent_id;
    t_trace_id = is.t_trace_id;
    page_id = is.page_id;
    slot_id = is.slot_id;
    t_infomask =
        flags_bound header.t_infomask _ _ _ (omega (arith, bit_if_lem flags.has_null 1))
          (omega (arith, bit_if_lem flags.has_varwidth 2))
          (omega (arith, bit_if_lem flags.has_external 4));
    t_infomask2 =
        columns_bound header.t_infomask2 n (nodeid_bit node_id)
          (omega (arith, (nodeid_bit_lem node_id).1));
    t_hoff = omega arith;
    t_flags = flags_small;
    t_cid = is.t_cid;
  }
    where
      flags_small : bit_or (bit_and header.t_flags 0xFFF0) 0 < 2 ^ 16
      flags_small =
          let above : bit_and header.t_flags 0xFFF0 / 65536 ≡ 0 =
            clear_high 16 header.t_flags 0xFFF0 refl in
          omega (arith, above, bit_or-zero (bit_and header.t_flags 0xFFF0))
