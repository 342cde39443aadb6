-- ===== src/Storage/Wal/Codec.antt =====
-- The calls of bincode in crates/pg-storage/src/wal/record.rs: what a payload is encoded and decoded
-- by is a parameter, with its documented behaviour as hypotheses.
use ams.Common.{ℕ, ◌≡◌, refl, ap, sym, ◌∙◌, Option, none, some, List, [], ◌∷◌, ◌++◌, length}
use ams.Storage.Error.{Result, ok, err, serialize}
use ams.Storage.Wal.RecordType.{WalRecordType}
use ams.Storage.Wal.Frame.{WalRecord}

-- `encode_to_vec`, and `decode_from_slice` with the number of bytes read.
pub record Codec (T : Type 0) : Type 0 where
  pub encode_to_vec : T → Option (List ℕ)
  pub decode_from_slice : List ℕ → Option (T × ℕ)

-- A value is read back from its bytes, whatever follows them, and no byte more is read.
pub record IsFaithful {T : Type 0} (c : Codec T) : Type 0 where
  pub reads :
      (v : T) (bytes rest : List ℕ)
      → c.encode_to_vec v ≡ some bytes
      → c.decode_from_slice (bytes ++ rest) ≡ some (v, length bytes)

-- The decoders without a test: bytes after the value are not looked at.
unfoldable pub decode_payload : {T : Type 0} → Codec T → List ℕ → Result T
decode_payload c payload = elim (c.decode_from_slice payload) [
  | none ↦ err serialize
  | some (v, _) ↦ ok v
]

-- `WalRecord::new`.
unfoldable pub new_record : WalRecordType → List ℕ → WalRecord
new_record t bytes = record {
  lsn = 0;
  prev_lsn = 0;
  txn_id = 0;
  record_type = t;
  flags = 0;
  payload = bytes;
}

-- The end of a constructor: a payload is encoded and put in a record, which the function finishes.
unfoldable pub with_payload :
    {T : Type 0} → Codec T → T → WalRecordType → (WalRecord → WalRecord) → Result WalRecord
with_payload c v t finish = elim (c.encode_to_vec v) [
  | none ↦ err serialize
  | some bytes ↦ ok (finish (new_record t bytes))
]

-- `rec.txn_id = xid` and `rec.flags = flags`.
abbrev pub stamp_xid : ℕ → WalRecord → WalRecord
stamp_xid xid r = record r { txn_id = xid }

abbrev pub stamp_flags : ℕ → WalRecord → WalRecord
stamp_flags f r = record r { flags = f }

abbrev pub unstamped : WalRecord → WalRecord
unstamped r = r

nothing_after : (bytes : List ℕ) → bytes ++ [] ≡ bytes
nothing_after [] = refl
nothing_after (b ∷ bytes) = ap (λ (t : List ℕ). b ∷ t) (nothing_after bytes)

pub decode-whole :
    {T : Type 0} (c : Codec T) (v : T) (bytes : List ℕ)
    → IsFaithful c
    → c.encode_to_vec v ≡ some bytes
    → c.decode_from_slice bytes ≡ some (v, length bytes)
decode-whole c v bytes faithful e =
    ap (λ (t : List ℕ). c.decode_from_slice t) (sym (nothing_after bytes))
    ∙ faithful.reads v bytes [] e
