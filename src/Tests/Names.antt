-- ===== src/Tests/Names.antt =====
-- Names of sets and references to them, from their texts.
use rpsl.Base.{◌≡◌, refl, [], ◌∷◌, none, some}
use rpsl.Types.SetName.{SetName, class_as_set}
use rpsl.Types.SetName.Parse.{parse_set_name, parse_set_ref}

abbrev as_foo : SetName
as_foo = record { canon = b'A' ∷ b'S' ∷ b'-' ∷ b'F' ∷ b'O' ∷ b'O' ∷ []; set_class = class_as_set }

-- " as007:as-x ", "AS-", "as-a:rs-b", "as7" and "as-a::as-b"
parse_set_name_run :
    (parse_set_name
        (b' ' ∷ b'a' ∷ b's' ∷ b'0' ∷ b'0' ∷ b'7' ∷ b':' ∷ b'a' ∷ b's' ∷ b'-' ∷ b'x' ∷ b' ' ∷ [])
      ≡ some (record {
        canon = b'A' ∷ b'S' ∷ b'7' ∷ b':' ∷ b'A' ∷ b'S' ∷ b'-' ∷ b'X' ∷ [];
        set_class = class_as_set;
      }))
    × (parse_set_name (b'A' ∷ b'S' ∷ b'-' ∷ []) ≡ none)
    × (parse_set_name (b'a' ∷ b's' ∷ b'-' ∷ b'a' ∷ b':' ∷ b'r' ∷ b's' ∷ b'-' ∷ b'b' ∷ []) ≡ none)
    × (parse_set_name (b'a' ∷ b's' ∷ b'7' ∷ []) ≡ none)
    × (parse_set_name (b'a' ∷ b's' ∷ b'-' ∷ b'a' ∷ b':' ∷ b':' ∷ b'a' ∷ b's' ∷ b'-' ∷ b'b' ∷ [])
        ≡ none)
unfolding parse_set_name
parse_set_name_run = (refl, refl, refl, refl, refl)

-- "ripe::as-foo", "AS-FOO", "ripe:: as-foo" and "::as-foo"
parse_set_ref_run :
    (parse_set_ref
        (b'r' ∷ b'i' ∷ b'p' ∷ b'e' ∷ b':' ∷ b':' ∷ b'a' ∷ b's' ∷ b'-' ∷ b'f' ∷ b'o' ∷ b'o' ∷ [])
      ≡ some (record { source = b'R' ∷ b'I' ∷ b'P' ∷ b'E' ∷ []; name = as_foo }))
    × (parse_set_ref (b'A' ∷ b'S' ∷ b'-' ∷ b'F' ∷ b'O' ∷ b'O' ∷ [])
        ≡ some (record { source = []; name = as_foo }))
    × (parse_set_ref (
          b'r' ∷ b'i' ∷ b'p' ∷ b'e' ∷ b':' ∷ b':' ∷ b' ' ∷ b'a' ∷ b's' ∷ b'-' ∷ b'f' ∷ b'o' ∷ b'o'
          ∷ [])
        ≡ none)
    × (parse_set_ref (b':' ∷ b':' ∷ b'a' ∷ b's' ∷ b'-' ∷ b'f' ∷ b'o' ∷ b'o' ∷ []) ≡ none)
unfolding parse_set_ref
parse_set_ref_run = (refl, refl, refl, refl)
