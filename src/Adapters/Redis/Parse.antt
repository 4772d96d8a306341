-- ===== src/Adapters/Redis/Parse.antt =====
-- `parseLine` and `parseQuotedStrings`.
pub mod RoundTrip
pub mod Timestamp
mod Samples
use localcloud.Base.{
  eqb, if◌then◌else◌, length, Bytes, codes, to_upper, has_prefix, text_after, ℕ, zero, suc, ◌+◌,
  not, Option, none, some, List, [], ◌∷◌,
}
use mathlib.Core.List.{reverse}
use localcloud.Timeline.{Time}
use localcloud.Adapters.Redis.{MonitorEntry}

-- The bytes of a quote and a backslash.
abbrev pub quote_mark : ℕ
quote_mark = 34

abbrev pub backslash : ℕ
backslash = 92

-- The inner loop, up to the closing quote: what the quotes held, and the rest of the line.
-- `none` is a string that is not closed. `buf` holds the bytes read, the last one first.
pub scan_quoted : Bytes → Bytes → Option (Bytes × Bytes)
scan_quoted [] buf = none
scan_quoted (c ∷ []) buf = if eqb c quote_mark then some (buf, []) else none
scan_quoted (c ∷ d ∷ s) buf =
    let escaped = scan_quoted s (d ∷ buf) in
    let plain = scan_quoted (d ∷ s) (c ∷ buf) in
    if eqb c backslash then escaped else if eqb c quote_mark then some (buf, d ∷ s) else plain

-- What stands behind the next quote.
pub after_quote : Bytes → Option Bytes
after_quote [] = none
after_quote (c ∷ s) = if eqb c quote_mark then some s else after_quote s

-- The outer loop on fuel; each round takes two quotes at least from the line.
pub quoted_strings : ℕ → Bytes → List Bytes
quoted_strings zero s = []
quoted_strings (suc fuel) s = elim (after_quote s) [
  | none ↦ []
  | some s' ↦ elim (scan_quoted s' []) [
    | none ↦ []
    | some (buf, rest) ↦ reverse buf ∷ quoted_strings fuel rest
  ]
]

pub parse_quoted_strings : Bytes → List Bytes
unfolding quoted_strings scan_quoted after_quote
parse_quoted_strings s = quoted_strings (length s) s

-- The entry of the parts: no part, no entry.
entry_of : Time → List Bytes → Option MonitorEntry
entry_of now [] = none
entry_of now (command ∷ []) =
    some (record { timestamp = now; command = to_upper command; args = []; key = [] })
entry_of now (command ∷ key ∷ args) =
    some (record { timestamp = now; command = to_upper command; args = key ∷ args; key = key })

pub parse_line : Time → Bytes → Option MonitorEntry
unfolding entry_of parse_quoted_strings
parse_line now line =
    if not (has_prefix line (codes "+")) then none else elim (text_after (codes " ") line) [
      | none ↦ none
      | some _ ↦ elim (text_after (codes "] ") line) [
        | none ↦ none
        | some rest ↦ entry_of now (parse_quoted_strings rest)
      ]
    ]
