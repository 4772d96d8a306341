-- ===== src/Adapters/Redis/Parse/Timestamp.antt =====
-- The time of an entry.
use localcloud.Base.{
  Option-cases, Bytes, codes, text_after, ◌≡◌, sym, ap, inl, inr, Option, none, some, List, [], ◌∷◌,
  arith,
}
use localcloud.Timeline.{Time}
use localcloud.Adapters.Redis.{MonitorEntry}
use localcloud.Adapters.Redis.Parse.{parse_quoted_strings, entry_of, parse_line}

entry_of-timestamp :
    (now : Time) (parts : List Bytes) (e : MonitorEntry)
    → entry_of now parts ≡ some e
    → e.timestamp ≡ now
unfolding entry_of
entry_of-timestamp now [] e h = cc
entry_of-timestamp now (command ∷ []) e h = sym (ap timestamp_or h)
  where
    timestamp_or : Option MonitorEntry → Time
    timestamp_or none = now
    timestamp_or (some x) = x.timestamp
entry_of-timestamp now (command ∷ key ∷ args) e h = sym (ap timestamp_or h)
  where
    timestamp_or : Option MonitorEntry → Time
    timestamp_or none = now
    timestamp_or (some x) = x.timestamp

-- An entry has the time at which its line was read.
pub parse_line-timestamp :
    (now : Time) (line : Bytes) (e : MonitorEntry)
    → parse_line now line ≡ some e
    → e.timestamp ≡ now
unfolding parse_line
parse_line-timestamp now line e h = elim (Option-cases (text_after (codes "] ") line)) [
  | inl n ↦ ground (arith, h, n)
  | inr (rest, n) ↦ ground (arith, h, n, entry_of-timestamp now (parse_quoted_strings rest) e)
]
