-- ===== src/Api/Serve.antt =====
-- The requests that change the database, served one after the other.
pub mod Invariant
use localcloud.Base.{String, Bool, Option, List, [], ◌∷◌}
use localcloud.Timeline.{Time, Duration, FaultRule}
use localcloud.Storage.{Db}
use localcloud.Replay as Replay
use localcloud.Replay.Entry.{Client}
use localcloud.Api.Reply.{Response}
use localcloud.Api.Recordings.{
  StartBody, StartIo, StopIo, ReplayBody, handle_start_recording, handle_stop_recording,
  handle_start_replay,
}
use localcloud.Api.Rules.{
  handle_create_fault_rule, handle_update_fault_rule, handle_delete_fault_rule,
}

-- The routes that write, with what each handler reads: the path's id, the decoded body, the clock,
-- the generated id, and whether the driver runs its statements.
pub data Request : Type 0 where
  start_recording : StartIo → String → Time → Option StartBody → Request
  stop_recording : StopIo → Time → Request
  start_replay : Replay.Io → String → Time → Time → String → Option ReplayBody → Request
  create_rule : Bool → String → Time → Option FaultRule → Request
  update_rule : Bool → Time → String → Option (Option Bool) → Request
  delete_rule : Bool → String → Request

module _ {W : Type 0} (parse_duration : String → Option Duration) (client : Client W) where
  pub serve : Request → Db × W → Response × Db × W
  serve (start_recording io id now body) (db, w) =
      let (r, db') = handle_start_recording io id now body db in (r, db', w)
  serve (stop_recording io now) (db, w) =
      let (r, db') = handle_stop_recording io now db in (r, db', w)
  serve (start_replay io run_id now finished_at id body) (db, w) =
      handle_start_replay client io run_id now finished_at id body db w
  serve (create_rule io id now body) (db, w) =
      let (r, db') = handle_create_fault_rule parse_duration io id now body db in (r, db', w)
  serve (update_rule io now id body) (db, w) =
      let (r, db') = handle_update_fault_rule io now id body db in (r, db', w)
  serve (delete_rule io id) (db, w) =
      let (r, db') = handle_delete_fault_rule io id db in (r, db', w)

  pub serve_all : List Request → Db × W → Db × W
  unfolding serve
  serve_all [] s = s
  serve_all (q ∷ qs) s = let (r, db, w) = serve q s in serve_all qs (db, w)
