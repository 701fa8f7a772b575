-- ===== src/Names/RoundTrip.antt =====
-- The ordinal and the parent that the code reads back from a Pod's name
-- (internal/controller/nodeset/utils/utils.go).
use gce_hackathon.Prelude.{
  ℕ, zero, suc, ◌+◌, ◌/◌, ◌%◌, ◌<◌, pos, ◌≡◌, refl, ◌∙◌, true, false, none, some, [], ◌∷◌, ◌++◌,
  Bytes, arith, lookup, lookup-insert, bytes_eq, bytes_eq_refl,
}
use gce_hackathon.Objects.{Pod, NodeSet, ScalingMode}
use gce_hackathon.Objects.Keys.{label_pod_hostname, label_pod_name}
use gce_hackathon.Pods.Annotations.{digits_value, parse_uint, parse_int32}
use gce_hackathon.Names.{
  to_digits, decimal, zeros, padded_decimal, get_padded_ordinal, get_ordinal_pod_name, all_digits,
  nodeset_pod_regex, parent_and_ordinal, get_parent_name_and_ordinal, update_identity,
  is_identity_match,
}

-- Reading the digits after `acc` is reading them from the start with `n` in front.
digits_value-to_digits :
    (fuel n : ℕ) (acc : Bytes)
    → n < fuel
    → digits_value 0 (to_digits fuel n acc) ≡ digits_value n acc
unfolding digits_value to_digits
digits_value-to_digits zero n acc h = elim h [ ]
digits_value-to_digits (suc fuel) n acc h =
    ground (arith, digits_value-to_digits fuel (n / 10) ((b'0' + n % 10) ∷ acc))

all_digits-to_digits :
    (fuel n : ℕ) (acc : Bytes) → all_digits acc ≡ true → all_digits (to_digits fuel n acc) ≡ true
unfolding all_digits to_digits
all_digits-to_digits zero n acc h = h
all_digits-to_digits (suc fuel) n acc h =
    ground (arith, all_digits-to_digits fuel (n / 10) ((b'0' + n % 10) ∷ acc))

to_digits-ne-nil : (fuel n c : ℕ) (acc : Bytes) → ¬ (to_digits fuel n (c ∷ acc) ≡ [])
unfolding to_digits
to_digits-ne-nil zero n c acc h = cc
to_digits-ne-nil (suc fuel) n c acc h =
    ground (arith, to_digits-ne-nil fuel (n / 10) (b'0' + n % 10) (c ∷ acc))

decimal-ne-nil : (n : ℕ) → ¬ (decimal n ≡ [])
unfolding decimal to_digits
decimal-ne-nil n = ground (arith, to_digits-ne-nil n (n / 10) (b'0' + n % 10) [])

digits_value-zeros : (k : ℕ) (s : Bytes) → digits_value 0 (zeros k ++ s) ≡ digits_value 0 s
unfolding digits_value zeros
digits_value-zeros zero s = refl
digits_value-zeros (suc k) s = digits_value-zeros k s

all_digits-zeros : (k : ℕ) (s : Bytes) → all_digits s ≡ true → all_digits (zeros k ++ s) ≡ true
unfolding all_digits zeros
all_digits-zeros zero s h = h
all_digits-zeros (suc k) s h = all_digits-zeros k s h

zeros-append-ne-nil : (k : ℕ) (s : Bytes) → ¬ (s ≡ []) → ¬ (zeros k ++ s ≡ [])
unfolding zeros
zeros-append-ne-nil zero s h e = h e
zeros-append-ne-nil (suc k) s h e = cc

-- What is printed with padding: digits alone, at least one, with the value printed.
pub padded-all_digits : (width n : ℕ) → all_digits (padded_decimal width (pos n)) ≡ true
unfolding padded_decimal decimal
padded-all_digits width n =
    all_digits-zeros _ (decimal n) (all_digits-to_digits (suc n) n [] (unfold all_digits in refl))

padded-ne-nil : (width n : ℕ) → ¬ (padded_decimal width (pos n) ≡ [])
unfolding padded_decimal
padded-ne-nil width n = zeros-append-ne-nil _ (decimal n) (decimal-ne-nil n)

padded-value : (width n : ℕ) → digits_value 0 (padded_decimal width (pos n)) ≡ some n
unfolding padded_decimal
padded-value width n =
    digits_value-zeros _ (decimal n)
    ∙ unfold decimal digits_value in digits_value-to_digits (suc n) n [] (omega arith)

-- A text of digits is no sign, so it is read as it stands.
parse_int32-digits :
    (s : Bytes) (n : ℕ)
    → ¬ (s ≡ [])
    → all_digits s ≡ true
    → digits_value 0 s ≡ some n
    → n < 2147483648
    → parse_int32 s ≡ some (pos n)
unfolding parse_int32 parse_uint all_digits
parse_int32-digits [] n h d v b = absurd (h refl)
parse_int32-digits (c ∷ s) n h d v b = ground arith

-- Digits hold no dash, so the last dash is the one in front of them.
regex-digits : (s : Bytes) → all_digits s ≡ true → nodeset_pod_regex s ≡ none
unfolding nodeset_pod_regex all_digits
regex-digits [] d = refl
regex-digits (c ∷ s) d = ground (arith, regex-digits s)

regex-dash :
    (parent s : Bytes)
    → all_digits s ≡ true
    → ¬ (s ≡ [])
    → nodeset_pod_regex (parent ++ (b'-' ∷ s)) ≡ some (parent, s)
unfolding nodeset_pod_regex all_digits
regex-dash [] [] d h = absurd (h refl)
regex-dash [] (c ∷ s) d h = ground (arith, regex-digits (c ∷ s) d)
regex-dash (c ∷ parent) s d h = ground (arith, regex-dash parent s d h)

-- For every NodeSet, with any padding, and every ordinal of a non-negative int32: a Pod that has
-- the name built from them is read back as a Pod of that NodeSet with that ordinal.
pub get_parent_name_and_ordinal-pod_name :
    (s : NodeSet) (p : Pod) (n : ℕ)
    → n < 2147483648
    → p.name ≡ get_ordinal_pod_name s (pos n)
    → get_parent_name_and_ordinal p ≡ (s.name, pos n)
unfolding get_parent_name_and_ordinal get_ordinal_pod_name parent_and_ordinal get_padded_ordinal
get_parent_name_and_ordinal-pod_name s p n b e =
    let text = padded_decimal s.ordinal_padding (pos n) in
    let digits = padded-all_digits s.ordinal_padding n in
    let full = padded-ne-nil s.ordinal_padding n in
    rw (
      e,
      regex-dash s.name text digits full,
      parse_int32-digits text n full digits (padded-value s.ordinal_padding n) b,
    )

-- So two ordinals of one NodeSet never give the same name.
pub pod_name-injective :
    (s : NodeSet) (p : Pod) (m n : ℕ)
    → m < 2147483648
    → n < 2147483648
    → p.name ≡ get_ordinal_pod_name s (pos m)
    → p.name ≡ get_ordinal_pod_name s (pos n)
    → m ≡ n
pod_name-injective s p m n bm bn em en = cc (
  get_parent_name_and_ordinal-pod_name s p m bm em,
  get_parent_name_and_ordinal-pod_name s p n bn en,
)

hostname-ne-pod_name : bytes_eq label_pod_hostname label_pod_name ≡ false
unfolding bytes_eq
hostname-ne-pod_name = refl

update_identity-pod_name :
    (s : NodeSet) (p : Pod) → lookup label_pod_name (update_identity s p).labels ≡ some p.name
unfolding update_identity
update_identity-pod_name s p =
    rw (lookup-insert, hostname-ne-pod_name, lookup-insert, bytes_eq_refl label_pod_name)

-- Of a StatefulSet's Pod that bears the name of an ordinal, `update_identity` makes a Pod that
-- passes `is_identity_match`, whatever its labels and its namespace were, and keeps its name.
pub update_identity-is_identity_match :
    (s : NodeSet) (p : Pod) (n : ℕ)
    → s.scaling_mode ≡ ScalingMode.statefulset
    → n < 2147483648
    → p.name ≡ get_ordinal_pod_name s (pos n)
    → (is_identity_match s (update_identity s p) ≡ true) × ((update_identity s p).name ≡ p.name)
unfolding is_identity_match update_identity
update_identity-is_identity_match s p n mode b e = ground (
  arith,
  get_parent_name_and_ordinal-pod_name s (update_identity s p) n b e,
  update_identity-pod_name s p,
  bytes_eq_refl s.name,
  bytes_eq_refl s.namespace,
  bytes_eq_refl p.name,
)
