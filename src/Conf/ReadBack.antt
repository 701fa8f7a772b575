-- ===== src/Conf/ReadBack.antt =====
-- What is built can be read back (internal/utils/config/config.go).
use gce_hackathon.Prelude.{
  ℕ, ◌==◌, ◌≡◌, refl, ap, ◌∙◌, Bool, true, false, not, Option, none, some, List, [], ◌∷◌, ◌++◌, map,
  all, All, Bytes, codes, if◌then◌else◌, arith,
}
use gce_hackathon.Conf.{Property, property, raw, line_of, join, build}

-- A reader: the lines, each cut at its first `=`; lines without one are skipped.
abbrev pub onto_first : ℕ → List Bytes → List Bytes
onto_first c [] = (c ∷ []) ∷ []
onto_first c (line ∷ lines) = (c ∷ line) ∷ lines

unfoldable pub lines_of : Bytes → List Bytes
lines_of [] = [] ∷ []
lines_of (c ∷ s) = let rest = lines_of s in if c == b'\n' then [] ∷ rest else onto_first c rest

abbrev pub onto_key : ℕ → Option (Bytes × Bytes) → Option (Bytes × Bytes)
onto_key c none = none
onto_key c (some (key, val)) = some (c ∷ key, val)

unfoldable pub cut_line : Bytes → Option (Bytes × Bytes)
cut_line [] = none
cut_line (c ∷ s) = let rest = cut_line s in if c == b'=' then some ([], s) else onto_key c rest

abbrev pub add_entry : Option (Bytes × Bytes) → List (Bytes × Bytes) → List (Bytes × Bytes)
add_entry none entries = entries
add_entry (some e) entries = e ∷ entries

unfoldable pub entries_of : List Bytes → List (Bytes × Bytes)
unfolding cut_line
entries_of [] = []
entries_of (line ∷ lines) = add_entry (cut_line line) (entries_of lines)

unfoldable pub read_back : Bytes → List (Bytes × Bytes)
unfolding lines_of entries_of
read_back s = entries_of (lines_of s)

-- No byte of the text is `c`.
abbrev pub lacks : ℕ → Bytes → Bool
lacks c s = all (λ x. not (x == c)) s

-- The keys and values that were added, in order.
abbrev pub entry_of : Property → Option (Bytes × Bytes)
entry_of (property key val) = some (key, val)
entry_of (raw val) = none

unfoldable pub added : List Property → List (Bytes × Bytes)
added [] = []
added (p ∷ ps) = add_entry (entry_of p) (added ps)

-- On one line, with no separator in a key and in a raw text.
abbrev pub IsPlain : Property → Type 0
IsPlain (property key val) =
    (lacks b'=' key ≡ true) × (lacks b'\n' key ≡ true) × (lacks b'\n' val ≡ true)
IsPlain (raw val) = (lacks b'=' val ≡ true) × (lacks b'\n' val ≡ true)

lines_of-line : (line : Bytes) → lacks b'\n' line ≡ true → lines_of line ≡ line ∷ []
unfolding lines_of
lines_of-line [] h = refl
lines_of-line (c ∷ s) h = ground (arith, h, lines_of-line s)

lines_of-append :
    (line rest : Bytes)
    → lacks b'\n' line ≡ true
    → lines_of (line ++ (b'\n' ∷ rest)) ≡ line ∷ lines_of rest
unfolding lines_of
lines_of-append [] rest h = refl
lines_of-append (c ∷ s) rest h = ground (arith, h, lines_of-append s rest)

lines_of-join :
    (line : Bytes) (lines : List Bytes)
    → All (λ l. lacks b'\n' l ≡ true) (line ∷ lines)
    → lines_of (join (line ∷ lines) (b'\n' ∷ [])) ≡ line ∷ lines
unfolding join
lines_of-join line [] h = lines_of-line line h.0
lines_of-join line (next ∷ lines) h =
    lines_of-append line (join (next ∷ lines) (b'\n' ∷ [])) h.0
    ∙ ap (◌∷◌ line) (lines_of-join next lines h.1)

cut_line-none : (s : Bytes) → lacks b'=' s ≡ true → cut_line s ≡ none
unfolding cut_line
cut_line-none [] h = refl
cut_line-none (c ∷ s) h = ground (arith, h, cut_line-none s)

cut_line-property :
    (key val : Bytes) → lacks b'=' key ≡ true → cut_line (key ++ (b'=' ∷ val)) ≡ some (key, val)
unfolding cut_line
cut_line-property [] val h = refl
cut_line-property (c ∷ key) val h = ground (arith, h, cut_line-property key val)

lacks-append : (c : ℕ) (s t : Bytes) → lacks c s ≡ true → lacks c t ≡ true → lacks c (s ++ t) ≡ true
lacks-append c [] t h k = k
lacks-append c (x ∷ s) t h k = ground (arith, h, k, lacks-append c s t)

line_of-lacks : (p : Property) → IsPlain p → lacks b'\n' (line_of (codes "=") p) ≡ true
line_of-lacks (property key val) h = lacks-append b'\n' key (b'=' ∷ val) h.1 h.2
line_of-lacks (raw val) h = h.1

cut_line-line_of : (p : Property) → IsPlain p → cut_line (line_of (codes "=") p) ≡ entry_of p
cut_line-line_of (property key val) h = cut_line-property key val h.0
cut_line-line_of (raw val) h = cut_line-none val h.0

abbrev end_of : Bool → List Bytes
end_of newline = if newline then [] ∷ [] else []

end_of-lacks : (newline : Bool) → All (λ l. lacks b'\n' l ≡ true) (end_of newline)
end_of-lacks true = (refl, tt)
end_of-lacks false = tt

lines-lack :
    (newline : Bool) (ps : List Property)
    → All IsPlain ps
    → All (λ l. lacks b'\n' l ≡ true) (map (line_of (codes "=")) ps ++ end_of newline)
lines-lack newline [] h = end_of-lacks newline
lines-lack newline (p ∷ ps) h = (line_of-lacks p h.0, lines-lack newline ps h.1)

entries_of-end : (newline : Bool) → entries_of (end_of newline) ≡ []
unfolding entries_of
entries_of-end true = refl
entries_of-end false = refl

entries_of-lines :
    (newline : Bool) (ps : List Property)
    → All IsPlain ps
    → entries_of (map (line_of (codes "=")) ps ++ end_of newline) ≡ added ps
unfolding entries_of added
entries_of-lines newline [] h = entries_of-end newline
entries_of-lines newline (p ∷ ps) h =
    rw (cut_line-line_of p h.0) (ap (add_entry (entry_of p)) (entries_of-lines newline ps h.1))

entries_of-join :
    (lines : List Bytes)
    → All (λ l. lacks b'\n' l ≡ true) lines
    → read_back (join lines (b'\n' ∷ [])) ≡ entries_of lines
unfolding read_back
entries_of-join [] h = unfold lines_of join entries_of in refl
entries_of-join (line ∷ lines) h = ap entries_of (lines_of-join line lines h)

-- Where each property has no line break, and no `=` in its key or, if it is raw, anywhere, the
-- configuration that Build makes of them with the default separator is read back, line by line and
-- cut at the first `=`, as the keys and values that were added, in order, and nothing else, with a
-- final line break or without one.
pub read_back-build :
    (newline : Bool) (ps : List Property)
    → All IsPlain ps
    → read_back (build (record { separator = codes "="; newline = newline; properties = ps }))
      ≡ added ps
unfolding build
read_back-build newline ps h =
    entries_of-join (map (line_of (codes "=")) ps ++ end_of newline) (lines-lack newline ps h)
    ∙ entries_of-lines newline ps h
