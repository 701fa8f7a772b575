-- ===== src/Conf/Merge.antt =====
-- internal/builder/common/common.go: BuildMergedConfig, parseSlurmConfKV and parseKVKey.
use gce_hackathon.Prelude.{
  ℕ, ◌==◌, leb, ◌&&◌, ◌||◌, Bool, true, false, Option, none, some, List, [], ◌∷◌, ◌++◌, map, any,
  Bytes, codes, bytes_eq, lookup, insert, if◌then◌else◌,
}
use gce_hackathon.Names.{is_empty}
use gce_hackathon.Conf.{Property, property, join, build}
use gce_hackathon.Conf.ReadBack.{lines_of, cut_line}
use gce_hackathon.Conf.Snippets.{built, to_lower}

-- White space of strings.TrimSpace, in ASCII.
abbrev pub is_space : ℕ → Bool
is_space c = c == 32 || (leb 9 c && leb c 13)

abbrev pub is_blank : ℕ → Bool
is_blank c = c == 32 || c == 9

abbrev pub drop_left : (ℕ → Bool) → Bytes → Bytes
drop_left p [] = []
drop_left p (c ∷ s) = let rest = drop_left p s in if p c then rest else c ∷ s

abbrev pub drop_right : (ℕ → Bool) → Bytes → Bytes
drop_right p [] = []
drop_right p (c ∷ s) = let rest = drop_right p s in if p c && is_empty rest then [] else c ∷ rest

abbrev pub trim_space : Bytes → Bytes
trim_space s = drop_right is_space (drop_left is_space s)

-- The text before the first `c`, or all of it.
abbrev pub before : ℕ → Bytes → Bytes
before c [] = []
before c (x ∷ s) = let rest = before c s in if x == c then [] else x ∷ rest

-- strings.CutSuffix of one byte: whether it is there, and the text without it.
abbrev pub cut_last : ℕ → Bytes → Bool × Bytes
cut_last c [] = (false, [])
cut_last c (x ∷ []) = if x == c then (true, []) else (false, x ∷ [])
cut_last c (x ∷ y ∷ s) = let (cut, rest) = cut_last c (y ∷ s) in (cut, x ∷ rest)

-- The function setKV of a logical line.
abbrev pub set_cut : Option (Bytes × Bytes) → List (Bytes × Bytes) → List (Bytes × Bytes)
set_cut none out = out
set_cut (some (key, val)) out =
    let key1 = trim_space key in
    let val1 = trim_space val in
    if is_empty key1 || (is_empty val1 || any (λ c. c == 32 || c == b'\n') val1)
    then out
    else insert (to_lower key1) val1 out

unfoldable pub set_kv : Bytes → List (Bytes × Bytes) → List (Bytes × Bytes)
unfolding cut_line
set_kv logical out = set_cut (cut_line (trim_space logical)) out

-- A line without its comment and what is blank at its end.
unfoldable pub clean_line : Bytes → Bytes
clean_line line = drop_right is_blank (before b'#' (cut_last 13 line).1)

-- The loop over the lines, with the logical line so far.
unfoldable pub parse_lines : List Bytes → Bytes → List (Bytes × Bytes) → List (Bytes × Bytes)
unfolding set_kv clean_line
parse_lines [] logical out = if is_empty logical then out else set_kv logical out
parse_lines (l ∷ ls) logical out =
    let line = clean_line l in
    let (continued, start) = cut_last b'\\' line in
    let next = parse_lines ls in
    if is_empty line
    then next logical out
    else if continued
    then next (logical ++ start) out
    else next [] (set_kv (logical ++ line) out)

-- parseSlurmConfKV.
unfoldable pub parse_slurm_conf_kv : Bytes → List (Bytes × Bytes)
unfolding parse_lines lines_of
parse_slurm_conf_kv conf = parse_lines (lines_of conf) [] []

-- parseKVKey.
unfoldable pub parse_kv_key : Bytes → Bytes
parse_kv_key s = to_lower (before b'=' s)

abbrev pub has_text : List Bytes → Bytes → Bool
has_text xs x = any (λ y. bytes_eq y x) xs

-- A set of strings as a list, without repetitions.
abbrev pub set_insert : Bytes → List Bytes → List Bytes
set_insert x xs = if has_text xs x then xs else x ∷ xs

abbrev pub to_set : List Bytes → List Bytes
to_set [] = []
to_set (x ∷ xs) = set_insert x (to_set xs)

abbrev pub onto_part : ℕ → List Bytes → List Bytes
onto_part c [] = (c ∷ []) ∷ []
onto_part c (part ∷ parts) = (c ∷ part) ∷ parts

-- strings.SplitSeq at commas.
unfoldable pub split_commas : Bytes → List Bytes
split_commas [] = [] ∷ []
split_commas (c ∷ s) =
    let rest = split_commas s in if c == b',' then [] ∷ rest else onto_part c rest

-- The loop over the options of a value: those whose keys were seen are dropped.
unfoldable pub merge_options : List Bytes → List Bytes → List Bytes → List Bytes
unfolding parse_kv_key
merge_options [] seen vals = vals
merge_options (v ∷ vs) seen vals =
    let key = parse_kv_key v in
    let next = merge_options vs in
    if is_empty v || has_text seen key
    then next seen vals
    else next (set_insert key seen) (set_insert (to_lower v) vals)

-- `sort_strings` is slices.Sort and SortedList of strings.
module _ (sort_strings : List Bytes → List Bytes) (merge_config : List (Bytes × List Bytes)) where
  abbrev pub list_or_empty : Option (List Bytes) → List Bytes
  list_or_empty none = []
  list_or_empty (some xs) = xs

  abbrev pub merged_line : Bytes → Option Bytes → List Property
  merged_line key none = []
  merged_line key (some val) =
      let vals = to_set (list_or_empty (lookup key merge_config)) in
      property key (
        join (sort_strings (merge_options (split_commas val) (to_set (map parse_kv_key vals)) vals))
          (codes ","))
      ∷ []

  unfoldable pub merged_lines : List (Bytes × Bytes) → List Bytes → List Property
  unfolding merge_options split_commas join
  merged_lines line_vals [] = []
  merged_lines line_vals (key ∷ keys) =
      merged_line key (lookup (to_lower key) line_vals) ++ merged_lines line_vals keys

  -- BuildMergedConfig.
  unfoldable pub build_merged_config : Bytes → Bytes
  unfolding merged_lines parse_slurm_conf_kv build
  build_merged_config conf =
      built false
        (merged_lines (parse_slurm_conf_kv conf) (sort_strings (map (λ e. e.0) merge_config)))
