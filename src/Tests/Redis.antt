-- ===== src/Tests/Redis.antt =====
-- Two quoted strings of a line.
use localcloud.Base.{Bytes, codes, ◌≡◌, List, [], ◌∷◌, arith}
use localcloud.Adapters.Redis.Parse.{quoted_strings, parse_quoted_strings}
use localcloud.Adapters.Redis.Parse.RoundTrip.{
  render, parse_quoted_strings-render, quoted_strings_enough,
}

abbrev parts : List Bytes
parts = codes "LPUSH" ∷ codes "{\"id\":\"a\\\\b\"}" ∷ []

parse_quoted_strings-render_example : parse_quoted_strings (render parts) ≡ parts
parse_quoted_strings-render_example = parse_quoted_strings-render parts

quoted_strings_enough_example :
    quoted_strings 9 (codes "\"a\" \"b\"") ≡ quoted_strings 7 (codes "\"a\" \"b\"")
quoted_strings_enough_example =
    quoted_strings_enough 9 7 (codes "\"a\" \"b\"") (omega arith) (omega arith)
