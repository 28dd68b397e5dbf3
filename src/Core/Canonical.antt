-- ===== src/Core/Canonical.antt =====
-- src/auditspec/core/canonical.py: RFC 8785 JSON without floats. A text that the code builds piece
-- by piece is the list of its code points.
use auditspec.Prelude.{
  ◌≡◌, refl, ℕ, zero, suc, ◌+◌, ◌-◌, ◌/◌, ◌%◌, String, true, false, ◌&&◌, List, [], ◌∷◌, ◌++◌, ltb,
  leb, ◌==◌, if◌then◌else◌,
}
use auditspec.Prelude.Int.{ℤ, pos, negsuc, abs_ℤ}
use auditspec.Prelude.Text.{codes}
use auditspec.Prelude.Order.{nat_order, list_order, sort_by}
use auditspec.Prelude.Result.{Result, ok, err, canonicalization, traverse, ◌>>=◌}
use auditspec.Core.Value.{
  Value, null, bool, int, str, arr, obj, other, Items, nil, cons, Fields, end, field,
}

abbrev pub ijson_max : ℕ
ijson_max = 9007199254740991

abbrev pub quote_mark : ℕ
quote_mark = 34

-- One hexadecimal digit in lower case.
abbrev hex_digit : ℕ → ℕ
hex_digit n = if ltb n 10 then 48 + n else 87 + n

-- The two characters that stand for a control character with a short escape, and for `"` and `\`.
short_escape : ℕ → List ℕ
short_escape c =
    if c == 34
    then 92 ∷ 34 ∷ []
    else if c == 92
    then 92 ∷ 92 ∷ []
    else if c == 8
    then 92 ∷ 98 ∷ []
    else if c == 9
    then 92 ∷ 116 ∷ []
    else if c == 10
    then 92 ∷ 110 ∷ []
    else if c == 12
    then 92 ∷ 102 ∷ []
    else if c == 13
    then 92 ∷ 114 ∷ []
    else []

-- The pieces of one character in `_quote`.
quote_character : ℕ → Result (List ℕ)
unfolding short_escape
quote_character c =
    if leb 55296 c && leb c 57343
    then err (canonicalization "unpaired UTF-16 surrogate is forbidden")
    else elim (short_escape c) [
      | x ∷ xs ↦ ok (x ∷ xs)
      | [] ↦
          if leb c 31
          then ok (92 ∷ 117 ∷ 48 ∷ 48 ∷ hex_digit (c / 16) ∷ hex_digit (c % 16) ∷ [])
          else ok (c ∷ [])
    ]

quote_body : List ℕ → Result (List ℕ)
quote_body [] = ok []
quote_body (c ∷ cs) = do piece ← quote_character c; pieces ← quote_body cs; ok (piece ++ pieces)

-- `_quote`
quote : String → Result (List ℕ)
unfolding quote_character quote_body
quote value = do pieces ← quote_body (codes value); ok (quote_mark ∷ (pieces ++ quote_mark ∷ []))

-- One character in UTF-16, big-endian.
utf16_character : ℕ → List ℕ
utf16_character c =
    if ltb c 65536
    then c / 256 ∷ c % 256 ∷ []
    else let high = 55296 + (c - 65536) / 1024 in
      let low = 56320 + (c - 65536) % 1024 in high / 256 ∷ high % 256 ∷ low / 256 ∷ low % 256 ∷ []

utf16 : List ℕ → List ℕ
utf16 [] = []
utf16 (c ∷ cs) = utf16_character c ++ utf16 cs

-- `_utf16_sort_key`. A native text holds no lone surrogate, so encoding does not fail.
utf16_sort_key : String → List ℕ
unfolding utf16_character utf16
utf16_sort_key value = utf16 (codes value)

-- The decimal digits of a number before `acc`. A number below the fuel has enough of it.
digits_onto : ℕ → ℕ → List ℕ → List ℕ
digits_onto zero n acc = acc
digits_onto (suc fuel) n acc =
    let more = digits_onto fuel (n / 10) ((48 + n % 10) ∷ acc) in
    if ltb n 10 then (48 + n) ∷ acc else more

-- `str(value)`. A number in the safe range has at most 16 digits.
decimal : ℕ → List ℕ
unfolding digits_onto
decimal n = digits_onto 17 n []

signed_decimal : ℤ → List ℕ
unfolding decimal
signed_decimal (pos n) = decimal n
signed_decimal (negsuc n) = 45 ∷ decimal (suc n)

-- `",".join(pieces)`
abbrev join : List (List ℕ) → List ℕ
join [] = []
join (x ∷ []) = x
join (x ∷ y ∷ rest) = x ++ (44 ∷ join (y ∷ rest))

abbrev MemberText : Type 0
MemberText = String × Result (List ℕ)

-- `f"{_quote(key)}:{canonical_json(value[key])}"`
member_text : MemberText → Result (List ℕ)
unfolding quote
member_text (key, value) = do name ← quote key; text ← value; ok (name ++ (58 ∷ text))

enclose : ℕ → ℕ → List (List ℕ) → List ℕ
enclose left right pieces = left ∷ (join pieces ++ right ∷ [])

sort_members : List MemberText → List MemberText
unfolding utf16_sort_key
sort_members = sort_by (list_order nat_order) (λ m. utf16_sort_key m.0)

unfoldable mutual
  unfolding quote signed_decimal member_text enclose sort_members

  pub canonical_json : Value → Result (List ℕ)
  canonical_json null = ok (codes "null")
  canonical_json (bool true) = ok (codes "true")
  canonical_json (bool false) = ok (codes "false")
  canonical_json (int n) =
      if leb (abs_ℤ n) ijson_max
      then ok (signed_decimal n)
      else err (canonicalization "integer is outside the I-JSON safe range")
  canonical_json (str s) = quote s
  canonical_json (arr xs) = do texts ← canonical_items xs; ok (enclose 91 93 texts)
  canonical_json (obj fs) = do
    texts ← traverse member_text (sort_members (canonical_members fs))
    ok (enclose 123 125 texts)
  canonical_json (other truth n) = err (canonicalization "unsupported canonical JSON type")

  canonical_items : Items → Result (List (List ℕ))
  canonical_items nil = ok []
  canonical_items (cons v vs) = do
    text ← canonical_json v
    texts ← canonical_items vs
    ok (text ∷ texts)

  canonical_members : Fields → List MemberText
  canonical_members end = []
  canonical_members (field k v fs) = (k, canonical_json v) ∷ canonical_members fs

canonical_sorted :
    canonical_json (
      obj (
        field "b"
          (arr (cons (int (negsuc 11)) (cons (bool true) (cons null nil))))
          (field "a" (str "x\\") end)))
    ≡ ok (codes "{\"a\":\"x\\\\\",\"b\":[-12,true,null]}")
unfolding canonical_json
canonical_sorted = refl
