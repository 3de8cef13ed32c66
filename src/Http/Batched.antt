-- ===== src/Http/Batched.antt =====
-- `POST /v1/transcript:batch` of src/app/main.py answers every video in its slot.
use yt_service.Prelude.{◌≤◌, List, Outcome, ok, raise, Float, length}
use yt_service.World.{Redis, World, Job}
use yt_service.Middleware.{Counters}
use yt_service.Parsing.{parse_video_id}
use yt_service.Http.{Caller, HttpEnv}
use yt_service.Http.Batch.{BatchItem, BatchBody}
use yt_service.Http.Fitting.{AllFit}
use yt_service.Http.Guarded.{Guarded}

module _ (f : Float) (r : Redis) (c : Counters) (env : HttpEnv f.Num (World f.Num (r.Db × c.Db)))
    (caller : Caller) (b : BatchBody) where
  abbrev pub Answers : {E : Type 0} → Outcome E (List (BatchItem f.Num)) → List Job → Type 0
  Answers (raise e) jobs = Unit {0}
  Answers (ok answer) jobs =
      AllFit (parse_video_id env.urls.parser) b.videos answer jobs
      × (1 ≤ length answer)
      × (length answer ≤ 50)
