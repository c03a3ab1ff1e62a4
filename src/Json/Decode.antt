-- ===== src/Json/Decode.antt =====
-- json.Unmarshal into a struct: the keys of the object in order, each stored in the field of its
-- name. A value of another type is an error, but the rest of the object is still decoded; null
-- changes nothing.
use mathlib.Core.Option
use claude_cowork_service.Base.{
  Bool, Bytes, Dict, List, Option, [], eqb, false, has_prefix, if◌then◌else◌, leb, ltb, negsuc,
  none, pos, put, some, suc, true, zero, ℕ, ℤ, ◌&&◌, ◌+◌, ◌∷◌,
}
use claude_cowork_service.Json.{
  Fields, Items, Json, arr, bool, cons, end, field, int, nil, null, obj, str,
}

pub data DecodeError : Type 0 where
  -- "unexpected end of JSON input": there is no text.
  end_of_input : DecodeError
  -- An UnmarshalTypeError, at the named field; at the top level the name is empty.
  wrong_type : Bytes → DecodeError

-- A field of the struct `P`: its JSON name, and how a value is stored. `none` is a wrong type.
pub record Field (P : Type 0) : Type 0 where
  pub name : Bytes
  pub store : Json → P → Option P

-- The byte of an ASCII letter in lower case.
unfoldable pub to_lower : ℕ → ℕ
to_lower c = if leb b'A' c && leb c b'Z' then c + 32 else c

-- The Kelvin sign and the long s, in UTF-8: the other characters that fold to an ASCII letter.
abbrev kelvin : Bytes
kelvin = 226 ∷ 132 ∷ 170 ∷ []

abbrev long_s : Bytes
long_s = 197 ∷ 191 ∷ []

fold_head : ℕ → Bytes → ℕ × ℕ
unfolding to_lower has_prefix
fold_head c s =
    if has_prefix (c ∷ s) kelvin
    then (b'k', 2)
    else if has_prefix (c ∷ s) long_s
    then (b's', 1)
    else (to_lower c, 0)

fold_from : ℕ → Bytes → Bytes
unfolding fold_head
fold_from n [] = []
fold_from (suc n) (c ∷ s) = fold_from n s
fold_from zero (c ∷ s) = let (d, n) = fold_head c s in d ∷ fold_from n s

-- The case folding under which encoding/json compares names.
unfoldable pub fold_name : Bytes → Bytes
unfolding fold_from
fold_name s = fold_from 0 s

-- The first error is kept.
abbrev keep_first : Option DecodeError → DecodeError → Option DecodeError
keep_first (some e) e' = some e
keep_first none e' = some e'

module _ {P : Type 0} where
  find_exact : List (Field P) → Bytes → Option (Field P)
  find_exact [] key = none
  find_exact (f ∷ fs) key = if eqb f.name key then some f else find_exact fs key

  find_folded : List (Field P) → Bytes → Option (Field P)
  find_folded [] key = none
  find_folded (f ∷ fs) key =
      if eqb (fold_name f.name) (fold_name key) then some f else find_folded fs key

  -- The field of a key: by its exact name, and else by a name that differs in case only.
  unfoldable pub find_field : List (Field P) → Bytes → Option (Field P)
  unfolding find_exact find_folded fold_name eqb
  find_field fs key = elim (find_exact fs key) [ some f ↦ some f | none ↦ find_folded fs key ]

  store_in : Option (Field P) → Json → P × Option DecodeError → P × Option DecodeError
  store_in none v (p, e) = (p, e)
  store_in (some f) v (p, e) = elim (f.store v p) [
    | some p' ↦ (p', e)
    | none ↦ (p, keep_first e (wrong_type f.name))
  ]

  decode_fields : List (Field P) → Fields → P × Option DecodeError → P × Option DecodeError
  decode_fields fs end r = r
  decode_fields fs (field k v rest) r = decode_fields fs rest (store_in (find_field fs k) v r)

  -- json.Unmarshal(raw, &p), where p holds zero values.
  unfoldable pub decode : List (Field P) → P → Option Json → P × Option DecodeError
  unfolding find_field store_in decode_fields
  decode fs zeros none = (zeros, some end_of_input)
  decode fs zeros (some null) = (zeros, none)
  decode fs zeros (some (obj kvs)) = decode_fields fs kvs (zeros, none)
  decode fs zeros (some other) = (zeros, some (wrong_type []))

  -- A Go string.
  abbrev pub store_str : (Bytes → P → P) → Json → P → Option P
  store_str set null p = some p
  store_str set (str s) p = some (set s p)
  store_str set other p = none

  abbrev pub store_bool : (Bool → P → P) → Json → P → Option P
  store_bool set null p = some p
  store_bool set (bool b) p = some (set b p)
  store_bool set other p = none

  -- An int or int64 on a 64-bit host: an integer literal within the range.
  abbrev pub store_int : (ℤ → P → P) → Json → P → Option P
  store_int set null p = some p
  store_int set (int false n) p = if ltb n 9223372036854775808 then some (set (pos n) p) else none
  store_int set (int true zero) p = some (set (pos 0) p)
  store_int set (int true (suc n)) p =
      if ltb n 9223372036854775808 then some (set (negsuc n) p) else none
  store_int set other p = none

-- A []string: null entries are "".
unfoldable pub strings_of : Items → Option (List Bytes)
strings_of nil = some []
strings_of (cons (str s) rest) = Option.map (λ ss. s ∷ ss) (strings_of rest)
strings_of (cons null rest) = Option.map (λ ss. [] ∷ ss) (strings_of rest)
strings_of (cons other rest) = none

-- A map[string]string: a later key replaces an earlier one.
unfoldable pub dict_of : Fields → Dict Bytes → Option (Dict Bytes)
unfolding put
dict_of end m = some m
dict_of (field k (str s) rest) m = dict_of rest (put k s m)
dict_of (field k null rest) m = dict_of rest (put k [] m)
dict_of (field k other rest) m = none

module _ {P : Type 0} where
  abbrev pub store_strings : (List Bytes → P → P) → Json → P → Option P
  store_strings set null p = some (set [] p)
  store_strings set (arr xs) p = Option.map (λ ss. set ss p) (strings_of xs)
  store_strings set other p = none

  abbrev pub store_dict : (Dict Bytes → P → P) → Json → P → Option P
  store_dict set null p = some (set [] p)
  store_dict set (obj kvs) p = Option.map (λ m. set m p) (dict_of kvs [])
  store_dict set other p = none
