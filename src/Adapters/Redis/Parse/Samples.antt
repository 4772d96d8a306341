-- ===== src/Adapters/Redis/Parse/Samples.antt =====
-- A line of MONITOR, and what is read of it.
use localcloud.Base.{
  text_after, Bytes, codes, upper, to_upper, has_prefix, ◌≡◌, refl, some, [], ◌∷◌,
}
use localcloud.Adapters.Redis.Parse.{parse_line}

abbrev sample_line : Bytes
sample_line =
    codes "+1621234567.123456 [0 127.0.0.1:12345] \"lpush\" \"email_jobs\" \"{\\\"a\\\":1}\""

sample_line_entry :
    parse_line 7 sample_line
    ≡ some (record {
      timestamp = 7;
      command = codes "LPUSH";
      args = codes "email_jobs" ∷ codes "{\"a\":1}" ∷ [];
      key = codes "email_jobs";
    })
unfolding parse_line text_after has_prefix to_upper upper
sample_line_entry = refl
