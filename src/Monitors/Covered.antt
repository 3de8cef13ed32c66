-- ===== src/Monitors/Covered.antt =====
-- A poll of src/app/monitor_scheduler.py leaves every job in progress its lock.
use yt_service.Prelude.{
  String, Bool-cases, Option, none, some, List, [], ◌∷◌, inl, inr, Outcome, ok, raise, Float,
}
use yt_service.Errors.{Error}
use yt_service.World.{Redis, World}
use yt_service.Jobs.Exclusion.{IsCovered}
use yt_service.Service.{Reply, transcript, job_accepted}
use yt_service.Service.Covered.{IsPolite, get_or_fetch-IsCovered}
use yt_service.Monitors.{
  Monitor, MonitorEnv, request_for, send, announce, dispatch_video, advance, dispatch_all, poll_new,
  poll_feed, poll_one, collect,
}

module _ (f : Float) (r : Redis) (env : MonitorEnv f.Num (World f.Num r.Db)) (m : Monitor)
    (polite : (v : String) → IsPolite f r (env.service v)) where
  send-IsCovered :
      (refusal : Option Error) (v : String) (w : World f.Num r.Db)
      → IsCovered r w
      → IsCovered r (send f r env m refusal v w).1
  send-IsCovered none v w h = record { locks = h.locks }
  send-IsCovered (some e) v w h = h

  announce-IsCovered :
      (v : String) (o : Outcome Error (Reply f.Num) × World f.Num r.Db)
      → IsCovered r o.1
      → IsCovered r (announce f r env m v o).1
  announce-IsCovered v (raise e, w) h = h
  announce-IsCovered v (ok (job_accepted a), w) h = h
  announce-IsCovered v (ok (transcript t), w) h = send-IsCovered (env.webhook_refusal v) v w h

  dispatch_video-IsCovered :
      (v : String) (w : World f.Num r.Db)
      → IsCovered r w
      → IsCovered r (dispatch_video f r env m v w).1
  unfolding dispatch_video
  dispatch_video-IsCovered v w h = announce-IsCovered v _ (
      get_or_fetch-IsCovered f r (env.service v) (polite v) (request_for f r env m v) m.created_by w
        h)

  advance-IsCovered :
      (v : String) (newest : Option String) (o : Outcome Error (Unit {0}) × World f.Num r.Db)
      → IsCovered r o.1
      → IsCovered r (advance f r env m v newest o).world
  advance-IsCovered v newest (ok u, w) h = h
  advance-IsCovered v newest (raise e, w) h = h

  dispatch_all-IsCovered :
      (vs : List String) (w : World f.Num r.Db)
      → IsCovered r w
      → IsCovered r (dispatch_all f r env m vs w).world
  unfolding dispatch_all
  dispatch_all-IsCovered [] w h = h
  dispatch_all-IsCovered (v ∷ vs) w h =
      let older = dispatch_all f r env m vs w in
      let kept = dispatch_all-IsCovered vs w h in
      elim (Bool-cases older.going) [
        | inl e ↦
            rw (e, dispatch_all)
              (advance-IsCovered v older.newest _ (dispatch_video-IsCovered v older.world kept))
        | inr e ↦ rw (e, dispatch_all) kept
      ]

  poll_new-IsCovered :
      (vs : List String) (w : World f.Num r.Db)
      → IsCovered r w
      → IsCovered r (poll_new f r env m vs w).1
  poll_new-IsCovered [] w h = h
  poll_new-IsCovered (v ∷ vs) w h = unfold dispatch_all in dispatch_all-IsCovered (v ∷ vs) w h

  poll_feed-IsCovered :
      (feed : Outcome Error (List String)) (w : World f.Num r.Db)
      → IsCovered r w
      → IsCovered r (poll_feed f r env m feed w).1
  poll_feed-IsCovered (raise e) w h = h
  poll_feed-IsCovered (ok []) w h = h
  poll_feed-IsCovered (ok (v ∷ vs)) w h = poll_new-IsCovered (collect m.last_video_id (v ∷ vs)) w h

  -- Every job in progress owns its lock after a poll too.
  pub poll_one-IsCovered :
      (w : World f.Num r.Db) → IsCovered r w → IsCovered r (poll_one f r env m w).1
  unfolding poll_one
  poll_one-IsCovered w h = poll_feed-IsCovered env.feed w h
