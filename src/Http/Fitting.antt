-- ===== src/Http/Fitting.antt =====
-- The items that `gather` of src/app/main.py makes for the videos of a batch: each fits its video, and
-- its job's row is still there when the last is answered.
use yt_service.Prelude.{
  ℕ, some, String, List, [], ◌∷◌, ◌≡◌, refl, Outcome, ok, raise, Float, length, ap, suc,
}
use mathlib.Core.Path.{subst}
use yt_service.Errors.{Error}
use yt_service.World.{Redis, World, Job}
use yt_service.Jobs.Named.{HasJob}
use yt_service.Jobs.Rows.{LeavesRows}
use yt_service.Auth.{Token}
use yt_service.Middleware.{Counters}
use yt_service.Parsing.{parse_video_id}
use yt_service.Service.{Reply, transcript, job_accepted}
use yt_service.Service.About.{IsAbout}
use yt_service.Service.Named.{NamesJob, get_or_fetch-NamesJob}
use yt_service.Service.Rows.{LeavesAllRows, get_or_fetch-HasJob}
use yt_service.Http.{joined, Caller, HttpEnv, Act, envelope_of, spend, service_for}
use yt_service.Http.Transcripts.{fetch_for}
use yt_service.Http.Batch.{
  BatchItem, transcript_item, job_item, error_item, BatchBody, batch_request, item_of, item_with,
  one_item, gather,
}

-- An item that is no error is about the video, and a job of it has its row; a name that does not parse
-- has its error as item.
abbrev pub Fits : {N : Type 0} → Outcome Error String → BatchItem N → List Job → Type 0
Fits (raise e) item jobs = item ≡ error_item (envelope_of e.kind e)
Fits (ok v) (transcript_item t) jobs = t.video_id ≡ v
Fits (ok v) (job_item a) jobs = (a.video_id ≡ v) × HasJob v "whisper" a.job_id jobs
Fits (ok v) (error_item x) jobs = Unit {0}

-- One item to a name, in order.
abbrev pub AllFit :
    {N : Type 0}
    → (String → Outcome Error String)
    → List String
    → List (BatchItem N)
    → List Job
    → Type 0
AllFit parse [] [] jobs = Unit {0}
AllFit parse (raw ∷ rest) (item ∷ others) jobs =
    Fits (parse raw) item jobs × AllFit parse rest others jobs
AllFit parse _ _ jobs = ⊥

item_of-Fits :
    {N Db : Type 0} (v : String) (m : Outcome Error (Reply N) × World N Db)
    → IsAbout v m.0
    → NamesJob v m
    → Fits (ok v) (item_of m.0) m.1.jobs
item_of-Fits v (ok (transcript t), w) h k = h
item_of-Fits v (ok (job_accepted a), w) h k = (h, k)
item_of-Fits v (raise e, w) h k = _

Fits-later :
    {N : Type 0} (o : Outcome Error String) (item : BatchItem N) (js js' : List Job)
    → ((v id : String) → HasJob v "whisper" id js → HasJob v "whisper" id js')
    → Fits o item js
    → Fits o item js'
Fits-later (raise e) item js js' kept h = h
Fits-later (ok v) (transcript_item t) js js' kept h = h
Fits-later (ok v) (job_item a) js js' kept h = (h.0, kept v a.job_id h.1)
Fits-later (ok v) (error_item x) js js' kept h = h

module _ (f : Float) (r : Redis) (c : Counters)
    (env : HttpEnv f.Num (World f.Num (r.Db × c.Db))) where
  -- What the others do meanwhile deletes no row of a job.
  pub record LeavesAppRows : Type 0 where
    pub contention : LeavesRows env.service.contention
    pub pause :
        (n : ℕ) (w : World f.Num (r.Db × c.Db)) (v t id : String)
        → HasJob v t id w.jobs
        → HasJob v t id (env.service.pause n w).jobs

  module _ (caller : Caller) (b : BatchBody) (token : Token) (leaves : LeavesAppRows) where
    service-LeavesAllRows : LeavesAllRows f (joined r c) (service_for f r c env caller token)
    service-LeavesAllRows = record {
      contention = leaves.contention;
      hook = λ h w v t id same kept.
          subst (λ g. HasJob v t id (g w).1.jobs) (some_eq same) (unfold spend in kept);
      pause = leaves.pause;
    }
      where
        some_eq : {g h : Act (World f.Num (r.Db × c.Db)) (Unit {0})} → some g ≡ some h → g ≡ h
        some_eq e = cc

    one_item-Fits :
        (o : Outcome Error String) (w : World f.Num (r.Db × c.Db))
        → Fits o
            (item_with f r c env caller b token o w).0
            (item_with f r c env caller b token o w).1.jobs
    unfolding fetch_for
    one_item-Fits (raise e) w = refl
    one_item-Fits (ok v) w =
        let named =
          get_or_fetch-NamesJob f (joined r c) (service_for f r c env caller token)
            (record { kept = leaves.pause }) (batch_request b v) token.id w in
        item_of-Fits v _ named.0 named.1

    module _ (v t id : String) where
      item_with-HasJob :
          (o : Outcome Error String) (w : World f.Num (r.Db × c.Db))
          → HasJob v t id w.jobs
          → HasJob v t id (item_with f r c env caller b token o w).1.jobs
      unfolding fetch_for
      item_with-HasJob (raise e) w h = h
      item_with-HasJob (ok video) w h =
          get_or_fetch-HasJob f (joined r c) (service_for f r c env caller token)
            service-LeavesAllRows v t id (batch_request b video) token.id w h

      gather-HasJob :
          (raws : List String) (w : World f.Num (r.Db × c.Db))
          → HasJob v t id w.jobs
          → HasJob v t id (gather f r c env caller b token raws w).1.jobs
      unfolding gather one_item
      gather-HasJob [] w h = h
      gather-HasJob (raw ∷ rest) w h =
          gather-HasJob rest (one_item f r c env caller b token raw w).1
            (item_with-HasJob (parse_video_id env.urls.parser raw) w h)

    pub gather-AllFit :
        (raws : List String) (w : World f.Num (r.Db × c.Db))
        → AllFit
            (parse_video_id env.urls.parser)
            raws
            (gather f r c env caller b token raws w).0
            (gather f r c env caller b token raws w).1.jobs
    unfolding gather one_item
    gather-AllFit [] w = _
    gather-AllFit (raw ∷ rest) w =
        let w1 = (one_item f r c env caller b token raw w).1 in
        (
          Fits-later (parse_video_id env.urls.parser raw) _ w1.jobs _
              (λ v id h. gather-HasJob v "whisper" id rest w1 h)
              (one_item-Fits (parse_video_id env.urls.parser raw) w),
          gather-AllFit rest w1,
        )

    pub length-gather :
        (raws : List String) (w : World f.Num (r.Db × c.Db))
        → length (gather f r c env caller b token raws w).0 ≡ length raws
    unfolding gather
    length-gather [] w = refl
    length-gather (raw ∷ rest) w =
        ap suc (length-gather rest (one_item f r c env caller b token raw w).1)
