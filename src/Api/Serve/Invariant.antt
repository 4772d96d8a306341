-- ===== src/Api/Serve/Invariant.antt =====
-- What the API keeps, whatever it is asked.
use localcloud.Base.{All, String, ◌≡◌, true, Option, List, [], ◌∷◌}
use localcloud.Timeline.{Duration}
use localcloud.Storage.{Db}
use localcloud.Replay.Entry.{Client}
use localcloud.Api.Sound.{IsSound}
use localcloud.Api.Recordings.Kept.{
  handle_start_recording-Sound, handle_stop_recording-Sound, handle_start_replay-Sound,
}
use localcloud.Api.Rules.Kept.{
  handle_create_fault_rule-Sound, handle_update_fault_rule-Sound, handle_delete_fault_rule-Sound,
}
use localcloud.Api.Serve.{
  Request, start_recording, stop_recording, start_replay, create_rule, update_rule, delete_rule,
  serve, serve_all,
}

-- A start of a recording in which the driver runs the query for an active one.
unfoldable pub ReadsActive : Request → Type 0
ReadsActive (start_recording io id now body) = io.reads_active ≡ true
ReadsActive (stop_recording io now) = Unit
ReadsActive (start_replay io run_id now finished_at id body) = Unit
ReadsActive (create_rule io id now body) = Unit
ReadsActive (update_rule io now id body) = Unit
ReadsActive (delete_rule io id) = Unit

module _ {W : Type 0} (parse_duration : String → Option Duration) (client : Client W) where
  serve-Sound :
      (q : Request) (db : Db) (w : W)
      → ReadsActive q
      → IsSound parse_duration db
      → IsSound parse_duration (serve parse_duration client q (db, w)).1
  unfolding serve ReadsActive
  serve-Sound (start_recording io id now body) db w reads s =
      handle_start_recording-Sound parse_duration io id now body db reads s
  serve-Sound (stop_recording io now) db w reads s =
      handle_stop_recording-Sound parse_duration io now db s
  serve-Sound (start_replay io run_id now finished_at id body) db w reads s =
      handle_start_replay-Sound parse_duration client io run_id now finished_at id body db w s
  serve-Sound (create_rule io id now body) db w reads s =
      handle_create_fault_rule-Sound parse_duration io id now body db s
  serve-Sound (update_rule io now id body) db w reads s =
      handle_update_fault_rule-Sound parse_duration io now id body db s
  serve-Sound (delete_rule io id) db w reads s =
      handle_delete_fault_rule-Sound parse_duration io id db s

  -- A sequence of requests, in which each start of a recording finds out whether one is active,
  -- keeps that at most one scenario is being recorded and that every stored fault rule is one
  -- that ValidateRule accepts.
  pub serve_all-Sound :
      (qs : List Request) (db : Db) (w : W)
      → All ReadsActive qs
      → IsSound parse_duration db
      → IsSound parse_duration (serve_all parse_duration client qs (db, w)).0
  unfolding serve_all
  serve_all-Sound [] db w reads s = s
  serve_all-Sound (q ∷ qs) db w reads s =
      let r = serve parse_duration client q (db, w) in
      serve_all-Sound qs r.1 r.2 reads.1 (serve-Sound q db w reads.0 s)
