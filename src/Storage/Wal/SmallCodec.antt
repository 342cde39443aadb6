-- ===== src/Storage/Wal/SmallCodec.antt =====
-- Codecs for concrete runs. Numbers below 251 take one byte in bincode's format, so a value whose
-- numbers are all that small is the list of them.
use ams.Common.{
  ℕ, ◌≡◌, sym, ap, ◌∙◌, Bool, true, ◌&&◌, Option, none, some, List, [], ◌∷◌, ◌++◌, length, arith,
  ltb, if◌then◌else◌,
}
use ams.Storage.Wal.Codec.{Codec, IsFaithful}

abbrev all_small : List ℕ → Bool
all_small [] = true
all_small (x ∷ xs) = ltb x 251 && all_small xs

abbrev pub packed : {T : Type 0} → (T → List ℕ) → (List ℕ → Option (T × ℕ)) → Codec T
packed write read = record {
  encode_to_vec = λ v. if all_small (write v) then some (write v) else none;
  decode_from_slice = read;
}

pub packed-IsFaithful :
    {T : Type 0} (write : T → List ℕ) (read : List ℕ → Option (T × ℕ))
    → ((v : T) (rest : List ℕ) → read (write v ++ rest) ≡ some (v, length (write v)))
    → IsFaithful (packed write read)
packed-IsFaithful write read law = record {
  reads = λ v bytes rest e.
      let whole : write v ≡ bytes = ground arith in
      ap (λ (t : List ℕ). read (t ++ rest)) (sym whole)
      ∙ law v rest
      ∙ ap (λ (t : List ℕ). some (v, length t)) whole;
}
