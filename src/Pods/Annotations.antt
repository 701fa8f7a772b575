-- ===== src/Pods/Annotations.antt =====
-- internal/utils/structutils/map.go: values read from annotations. Each getter returns a value
-- and whether it returns an error; with an error the value is the zero value.
use gce_hackathon.Prelude.{
  ℕ, ◌+◌, ◌-◌, ◌*◌, ◌<◌, ℤ, pos, negsuc, ◌≡◌, Bool, true, false, ◌&&◌, ◌||◌, Option, none, some,
  List, [], ◌∷◌, Bytes, codes, lookup, bytes_eq, leb, ltb, ◌==◌, if◌then◌else◌, arith,
}

unfoldable pub valid_first_digit : Bytes → Bool
unfolding bytes_eq
valid_first_digit [] = false
valid_first_digit (c ∷ s) =
    c == b'-' || ((c == b'0' && bytes_eq (c ∷ s) (codes "0")) || (leb b'1' c && leb c b'9'))

-- The digits of strconv.ParseUint in base 10, after the value `acc` so far.
unfoldable pub digits_value : ℕ → Bytes → Option ℕ
digits_value acc [] = some acc
digits_value acc (c ∷ s) =
    let rest = digits_value (acc * 10 + (c - b'0')) s in
    if leb b'0' c && leb c b'9' then rest else none

unfoldable pub parse_uint : Bytes → Option ℕ
unfolding digits_value
parse_uint [] = none
parse_uint (c ∷ s) = digits_value 0 (c ∷ s)

-- The range of a 32-bit integer: 2^31 is allowed below zero alone.
abbrev pub int32_of : Bool → Option ℕ → Option ℤ
int32_of negative none = none
int32_of false (some n) = if ltb n 2147483648 then some (pos n) else none
int32_of true (some n) =
    if n == 0 then some (pos 0) else if leb n 2147483648 then some (negsuc (n - 1)) else none

-- strconv.ParseInt(value, 10, 32) of the standard library.
unfoldable pub parse_int32 : Bytes → Option ℤ
unfolding parse_uint
parse_int32 [] = none
parse_int32 (c ∷ s) =
    if c == b'-'
    then int32_of true (parse_uint s)
    else if c == b'+'
    then int32_of false (parse_uint s)
    else int32_of false (parse_uint (c ∷ s))

-- strconv.ParseBool of the standard library.
unfoldable pub parse_bool : Bytes → Option Bool
unfolding bytes_eq
parse_bool s =
    if bytes_eq s (codes "1")
      || (bytes_eq s (codes "t")
          || (bytes_eq s (codes "T")
              || (bytes_eq s (codes "true")
                  || (bytes_eq s (codes "TRUE") || bytes_eq s (codes "True")))))
    then some true
    else if bytes_eq s (codes "0")
        || (bytes_eq s (codes "f")
            || (bytes_eq s (codes "F")
                || (bytes_eq s (codes "false")
                    || (bytes_eq s (codes "FALSE") || bytes_eq s (codes "False")))))
    then some false
    else none

abbrev pub with_error {ℓ} : {A : Type ℓ} → A → Option A → A × Bool
with_error zero_value none = (zero_value, true)
with_error zero_value (some a) = (a, false)

unfoldable pub number_of : Option Bytes → ℤ × Bool
unfolding valid_first_digit parse_int32
number_of none = (pos 0, false)
number_of (some value) =
    if valid_first_digit value then with_error (pos 0) (parse_int32 value) else (pos 0, true)

unfoldable pub get_number_from_annotations : List (Bytes × Bytes) → Bytes → ℤ × Bool
unfolding number_of lookup
get_number_from_annotations annotations key = number_of (lookup key annotations)

unfoldable pub bool_of : Option Bytes → Bool × Bool
unfolding parse_bool
bool_of none = (false, false)
bool_of (some value) = with_error false (parse_bool value)

unfoldable pub get_bool_from_annotations : List (Bytes × Bytes) → Bytes → Bool × Bool
unfolding bool_of lookup
get_bool_from_annotations annotations key = bool_of (lookup key annotations)

abbrev time_of : (Bytes → Option ℕ) → Option Bytes → ℕ × Bool
time_of parse_time none = (0, false)
time_of parse_time (some value) = with_error 0 (parse_time value)

-- `parse_time` is time.Parse with the layout RFC3339; times are counted from the zero time.
unfoldable pub get_time_from_annotations :
    (Bytes → Option ℕ) → List (Bytes × Bytes) → Bytes → ℕ × Bool
unfolding lookup
get_time_from_annotations parse_time annotations key = time_of parse_time (lookup key annotations)

-- A 32-bit integer, in two's complement range.
abbrev pub IsInt32 : ℤ → Type 0
IsInt32 (pos n) = n < 2147483648
IsInt32 (negsuc n) = n < 2147483648

int32_of-IsInt32 :
    (negative : Bool) (v : Option ℕ) {z : ℤ} → int32_of negative v ≡ some z → IsInt32 z
int32_of-IsInt32 negative none h = cc
int32_of-IsInt32 false (some n) h = ground arith
int32_of-IsInt32 true (some n) h = ground arith

parse_int32-IsInt32 : (s : Bytes) {z : ℤ} → parse_int32 s ≡ some z → IsInt32 z
unfolding parse_int32
parse_int32-IsInt32 [] h = cc
parse_int32-IsInt32 (c ∷ s) {z} h = ground (
  arith,
  int32_of-IsInt32 true (parse_uint s) {z = z},
  int32_of-IsInt32 false (parse_uint s) {z = z},
  int32_of-IsInt32 false (parse_uint (c ∷ s)) {z = z},
)
