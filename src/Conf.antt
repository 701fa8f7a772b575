-- ===== src/Conf.antt =====
-- internal/utils/config/config.go: the builder of configuration files.
pub mod ReadBack
pub mod Snippets
pub mod Merge
pub mod Controller
pub mod Files
use gce_hackathon.Prelude.{Bool, true, false, List, [], ◌∷◌, ◌++◌, map, Bytes, codes, if◌then◌else◌}

-- A property, with a value that is printed already, or a raw text.
pub data Property : Type 0 where
  property : Bytes → Bytes → Property
  raw : Bytes → Property

pub record Builder : Type 0 where
  pub separator : Bytes
  pub newline : Bool
  pub properties : List Property

-- NewBuilder, and AddProperty, WithSeparator and WithFinalNewline.
abbrev pub new_builder : Builder
new_builder = record { separator = codes "="; newline = true; properties = [] }

unfoldable pub add_property : Builder → Property → Builder
add_property b p = record b { properties = b.properties ++ (p ∷ []) }

unfoldable pub with_separator : Builder → Bytes → Builder
with_separator b separator = record b { separator = separator }

unfoldable pub with_final_newline : Builder → Bool → Builder
with_final_newline b newline = record b { newline = newline }

abbrev pub line_of : Bytes → Property → Bytes
line_of separator (property key val) = key ++ (separator ++ val)
line_of separator (raw val) = val

-- strings.Join.
unfoldable pub join : List Bytes → Bytes → Bytes
join [] separator = []
join (x ∷ []) separator = x
join (x ∷ y ∷ xs) separator = x ++ (separator ++ join (y ∷ xs) separator)

-- Build.
unfoldable pub build : Builder → Bytes
unfolding join
build b =
    join (map (line_of b.separator) b.properties ++ (if b.newline then [] ∷ [] else []))
      (b'\n' ∷ [])
