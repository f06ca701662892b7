-- ===== src/Cell/Dict/Key.antt =====
-- Keys and labels as runs of bits: the free functions over them in core/src/cell/dict.rs, and a
-- label of core/src/cell/dict/label.rs by the bits that it spells, with the room that it has.
use ton_net.Base.{
  ℕ, zero, suc, ◌+◌, ◌-◌, ◌*◌, ◌/◌, ◌%◌, ◌^◌, Bool, false, Option, none, some, List, [], ◌∷◌, ◌++◌,
  ltb, leb, if◌then◌else◌, length, get_elem?, set, take, drop, bit_or, replicate,
}
use ton_net.Base.Result.{Result, ok, err}
use ton_net.Cell.Error.{CellError, malformed, label_too_long, key_length}
use ton_net.Cell.Data.{bit_at}
use ton_net.Cell.Dict.Label.{LabelSink, eq_bool}

-- `Label::push`, which refuses a bit past what a cell carries.
unfoldable pub push : Bool → List Bool → Result CellError (List Bool)
push bit label = if leb 1023 (length label) then err label_too_long else ok (label ++ (bit ∷ []))

unfoldable pub extend : List Bool → List Bool → Result CellError (List Bool)
extend label [] = ok label
extend label (bit ∷ bits) = elim (push bit label) [ err e ↦ err e | ok longer ↦ extend longer bits ]

-- `impl LabelSink for Label`
abbrev pub label_sink : LabelSink (List Bool)
label_sink = record { reset = λ held. []; write_bit = push }

-- `Label::tail` and `Label::head`
abbrev pub tail : List Bool → ℕ → List Bool
tail label at = drop at label

abbrev pub head : List Bool → ℕ → List Bool
head label at = take at label

unfoldable pub key_bit : List ℕ → ℕ → Bool
key_bit key index = bit_at key index

abbrev pub rest : List Bool → ℕ → List Bool
rest key at = drop at key

-- `key.get(at).copied().unwrap_or(false)`
unfoldable pub bit_or_false : Option Bool → Bool
bit_or_false none = false
bit_or_false (some bit) = bit

-- `if let Some(byte) = out.get_mut(index / 8) { *byte |= 1 << (7 - index % 8) }`
unfoldable pub set_bit : ℕ → List ℕ → List ℕ
set_bit index out = elim (get_elem? out (index / 8)) [
  | none ↦ out
  | some byte ↦ set out (index / 8) (bit_or byte (2 ^ (7 - index % 8)))
]

unfoldable pub set_bits : List Bool → ℕ → List ℕ → List ℕ
unfolding set_bit
set_bits [] index out = out
set_bits (bit ∷ bits) index out = set_bits bits (index + 1) (if bit then set_bit index out else out)

-- Packs key bits into bytes, most significant bit of the first byte first.
unfoldable pub pack : List Bool → List ℕ
unfolding set_bits
pack bits = set_bits bits 0 (replicate ((length bits + 7) / 8) 0)

unfoldable pub check_key_bits : ℕ → Result CellError (Unit {0})
check_key_bits key_bits =
    if ltb 1023 key_bits then err (malformed "dictionary key wider than a cell") else ok tt

unfoldable pub key_bits_from : List ℕ → ℕ → ℕ → List Bool
unfolding key_bit
key_bits_from key index zero = []
key_bits_from key index (suc n) = key_bit key index ∷ key_bits_from key (index + 1) n

unfoldable pub key_of : List ℕ → ℕ → Result CellError (List Bool)
unfolding key_bits_from
key_of key key_bits =
    if ltb (length key) ((key_bits + 7) / 8)
    then err (key_length (length key * 8) key_bits)
    else ok (key_bits_from key 0 key_bits)

unfoldable pub one_later : Option ℕ → Option ℕ
one_later none = none
one_later (some at) = some (suc at)

-- The first position where the label and the key part company, over the run that both have.
unfoldable pub diverges : List Bool → List Bool → Option ℕ
unfolding one_later
diverges [] key = none
diverges (l ∷ label) [] = none
diverges (l ∷ label) (k ∷ key) = if eq_bool k l then one_later (diverges label key) else some 0
