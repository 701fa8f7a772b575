-- ===== src/Names.antt =====
-- internal/controller/nodeset/utils/utils.go: names of Pods, of their claims and of their Slurm
-- nodes.
pub mod RoundTrip
use gce_hackathon.Prelude.{
  ℕ, zero, suc, ◌+◌, ◌-◌, ◌/◌, ◌%◌, ℤ, pos, negsuc, ltb_ℤ, Bool, true, false, not, ◌&&◌, ◌||◌,
  Option, none, some, List, [], ◌∷◌, ◌++◌, Bytes, codes, length, lookup, insert, or_empty, bytes_eq,
  leb, ◌==◌, if◌then◌else◌,
}
use gce_hackathon.Objects.{Pod, NodeSet, ScalingMode, scaling_mode_text}
use gce_hackathon.Objects.Keys.{
  label_scaling_mode, label_pod_name, label_pod_index, label_pod_hostname,
}
use gce_hackathon.Pods.Annotations.{parse_int32}

-- The decimal digits of a number, in front of `acc`. A number has fewer digits than its value
-- plus one, which is the fuel given.
unfoldable pub to_digits : ℕ → ℕ → Bytes → Bytes
to_digits zero n acc = acc
to_digits (suc fuel) n acc =
    let next = (b'0' + n % 10) ∷ acc in
    let rest = to_digits fuel (n / 10) next in if n / 10 == 0 then next else rest

unfoldable pub decimal : ℕ → Bytes
unfolding to_digits
decimal n = to_digits (suc n) n []

unfoldable pub zeros : ℕ → Bytes
zeros zero = []
zeros (suc n) = b'0' ∷ zeros n

-- The verb `%0wd` of package fmt: zeros between the sign and the digits, up to the width.
unfoldable pub padded_decimal : ℕ → ℤ → Bytes
unfolding decimal zeros
padded_decimal width (pos n) = zeros (width - length (decimal n)) ++ decimal n
padded_decimal width (negsuc n) =
    b'-' ∷ (zeros (width - 1 - length (decimal (suc n))) ++ decimal (suc n))

unfoldable pub get_padded_ordinal : NodeSet → ℤ → Bytes
unfolding padded_decimal
get_padded_ordinal s ordinal = padded_decimal s.ordinal_padding ordinal

unfoldable pub get_ordinal_pod_name : NodeSet → ℤ → Bytes
unfolding get_padded_ordinal
get_ordinal_pod_name s ordinal = s.name ++ (b'-' ∷ get_padded_ordinal s ordinal)

unfoldable pub all_digits : Bytes → Bool
all_digits [] = true
all_digits (c ∷ s) = (leb b'0' c && leb c b'9') && all_digits s

abbrev pub is_empty : Bytes → Bool
is_empty [] = true
is_empty (c ∷ s) = false

abbrev cons_parent : ℕ → Bool → Bytes → Option (Bytes × Bytes) → Option (Bytes × Bytes)
cons_parent c here s (some (parent, digits)) = some (c ∷ parent, digits)
cons_parent c true s none = some ([], s)
cons_parent c false s none = none

-- The submatches of `(.*)-([0-9]+)$`: the text before the last `-`, where digits alone follow it.
-- Names hold no line breaks.
unfoldable pub nodeset_pod_regex : Bytes → Option (Bytes × Bytes)
unfolding all_digits
nodeset_pod_regex [] = none
nodeset_pod_regex (c ∷ s) =
    cons_parent c (c == b'-' && (not (is_empty s) && all_digits s)) s (nodeset_pod_regex s)

abbrev ordinal_or_minus_one : Option ℤ → ℤ
ordinal_or_minus_one none = negsuc 0
ordinal_or_minus_one (some n) = n

unfoldable pub parent_and_ordinal : Option (Bytes × Bytes) → Bytes × ℤ
unfolding parse_int32
parent_and_ordinal none = (codes "", negsuc 0)
parent_and_ordinal (some (parent, digits)) = (parent, ordinal_or_minus_one (parse_int32 digits))

unfoldable pub get_parent_name_and_ordinal : Pod → Bytes × ℤ
unfolding nodeset_pod_regex parent_and_ordinal
get_parent_name_and_ordinal p = parent_and_ordinal (nodeset_pod_regex p.name)

unfoldable pub get_ordinal : Pod → ℤ
unfolding get_parent_name_and_ordinal
get_ordinal p = (get_parent_name_and_ordinal p).1

abbrev before_dot : Bytes → Bytes
before_dot [] = []
before_dot (c ∷ s) = let rest = before_dot s in if c == b'.' then [] else c ∷ rest

-- strings.Cut at the first dot gives the text before it, or the whole name where there is none.
unfoldable pub get_daemon_set_pod_hostname : Bytes → Bytes → Bytes
get_daemon_set_pod_hostname node_name override =
    if is_empty override then before_dot node_name else override

unfoldable pub get_slurm_node_name : Pod → Bytes
unfolding lookup bytes_eq
get_slurm_node_name p =
    if bytes_eq (or_empty (lookup label_scaling_mode p.labels))
      (scaling_mode_text ScalingMode.statefulset)
    then (if p.host_network
        then p.node_name
        else if not (is_empty p.hostname)
        then p.hostname
        else p.name)
    else p.hostname

abbrev pub is_statefulset : ScalingMode → Bool
is_statefulset ScalingMode.statefulset = true
is_statefulset _ = false

-- UpdateIdentity. A nil map of labels is an empty one.
unfoldable pub update_identity : NodeSet → Pod → Pod
update_identity s p =
    let p1 = record p { namespace = s.namespace } in
    let p2 = record p1 {
      labels =
          if is_statefulset s.scaling_mode
          then insert label_pod_index (get_padded_ordinal s (get_ordinal p1)) p1.labels
          else p1.labels;
    } in
    let p3 = record p2 { labels = insert label_pod_name p2.name p2.labels } in
    record p3 { labels = insert label_pod_hostname (get_slurm_node_name p3) p3.labels }

-- strings.TrimSuffix of a dash.
abbrev trim_dash : Bytes → Bytes
trim_dash [] = []
trim_dash (c ∷ s) = let rest = trim_dash s in if c == b'-' && is_empty s then [] else c ∷ rest

unfoldable pub is_identity_match : NodeSet → Pod → Bool
is_identity_match s p =
    let (parent, ordinal) = get_parent_name_and_ordinal p in
    let placed =
      bytes_eq p.namespace s.namespace
      && bytes_eq (or_empty (lookup label_pod_name p.labels)) p.name in
    if is_statefulset s.scaling_mode
    then (not (ltb_ℤ ordinal (pos 0)) && (bytes_eq s.name parent && placed))
    else (bytes_eq s.name (trim_dash p.generate_name) && placed)

-- The rest of initIdentity after UpdateIdentity: what is set on creation alone.
unfoldable pub init_identity : NodeSet → Pod → Pod
init_identity s p =
    let p1 = update_identity s p in
    let ordinal = get_ordinal p1 in
    let p2 = record p1 { name = get_ordinal_pod_name s ordinal } in
    let p3 = record p2 {
      hostname =
          if not (is_empty p2.hostname)
          then p2.hostname ++ get_padded_ordinal s ordinal
          else p2.name;
    } in
    let p4 = if is_statefulset s.scaling_mode then p3 else p1 in
    let p5 = record p4 { labels = insert label_pod_hostname (get_slurm_node_name p4) p4.labels } in
    record p5 { labels = insert label_scaling_mode (scaling_mode_text s.scaling_mode) p5.labels }

-- GetPersistentVolumeClaimNameOrdinal and GetPersistentVolumeClaimNameNodeName: the claim of the
-- template, the NodeSet, and the padded ordinal or the host name.
unfoldable pub get_persistent_volume_claim_name_ordinal : NodeSet → Bytes → Bytes → Bytes
get_persistent_volume_claim_name_ordinal s claim padded_ordinal =
    claim ++ (b'-' ∷ (s.name ++ (b'-' ∷ padded_ordinal)))

unfoldable pub get_persistent_volume_claim_name_node_name : NodeSet → Bytes → Bytes → Bytes
get_persistent_volume_claim_name_node_name s claim node_name =
    claim ++ (b'-' ∷ (s.name ++ (b'-' ∷ node_name)))
