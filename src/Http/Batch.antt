-- ===== src/Http/Batch.antt =====
-- `POST /v1/transcript:batch` of src/app/main.py, and the answers to a body that does not validate.
use yt_service.Prelude.{
  String, Option, none, some, List, [], ◌∷◌, Outcome, ok, raise, Float, length, ltb, if◌then◌else◌,
}
use yt_service.Errors.{Error, Envelope, error, batch_too_large, invalid_request}
use yt_service.Domain.{TranscriptRequest}
use yt_service.World.{Redis, World}
use yt_service.Auth.{Token}
use yt_service.Middleware.{Counters}
use yt_service.Parsing.{parse_video_id}
use yt_service.UrlSafety.{validate_callback_url}
use yt_service.Service.{TranscriptResponse, JobAcceptedResponse, Reply, transcript, job_accepted}
use yt_service.Http.{App, Caller, HttpEnv, ErrorResponse, Act, ◌>>>◌, envelope_of, spend, route}
use yt_service.Http.Transcripts.{fetch_for}

pub data BatchItem (N : Type 0) : Type 0 where
  transcript_item : TranscriptResponse N → BatchItem N
  job_item : JobAcceptedResponse → BatchItem N
  error_item : Envelope → BatchItem N

pub record BatchBody : Type 0 where
  pub videos : List String
  pub lang : String
  pub include : List String
  pub callback_url : Option String

-- The validator's two messages become the two classes of errors.
unfoldable pub cap_video_count : List String → Outcome Error (Unit {0})
unfolding error
cap_video_count [] = raise (error invalid_request "request failed validation")
cap_video_count (v ∷ vs) =
    if ltb 50 (length (v ∷ vs))
    then raise (error batch_too_large "batch contains more than 50 videos")
    else ok _

abbrev pub batch_request : BatchBody → String → TranscriptRequest
batch_request b video_id = record {
  video_id = video_id;
  language = b.lang;
  force = none;
  wait_seconds = some 0;
  include = b.include;
  callback_url = b.callback_url;
}

abbrev pub item_of : {N : Type 0} → Outcome Error (Reply N) → BatchItem N
item_of (ok (transcript t)) = transcript_item t
item_of (ok (job_accepted a)) = job_item a
item_of (raise e) = error_item (envelope_of e.kind e)

module _ (f : Float) (r : Redis) (c : Counters) (env : HttpEnv f.Num (World f.Num (r.Db × c.Db)))
    (caller : Caller) (b : BatchBody) (token : Token) where
  abbrev pub item_with :
      Outcome Error String → World f.Num (r.Db × c.Db) → BatchItem f.Num × World f.Num (r.Db × c.Db)
  item_with (raise e) w = (error_item (envelope_of e.kind e), w)
  item_with (ok video_id) w =
      let out = fetch_for f r c env caller token (batch_request b video_id) w in
      (item_of out.0, out.1)

  -- `_one`: a failure fills its slot.
  unfoldable pub one_item :
      String → World f.Num (r.Db × c.Db) → BatchItem f.Num × World f.Num (r.Db × c.Db)
  unfolding fetch_for parse_video_id
  one_item raw w = item_with (parse_video_id env.urls.parser raw) w

  -- `asyncio.gather`, with the items one after the other.
  unfoldable pub gather :
      List String → World f.Num (r.Db × c.Db) → List (BatchItem f.Num) × World f.Num (r.Db × c.Db)
  unfolding one_item
  gather [] w = ([], w)
  gather (raw ∷ rest) w =
      let first = one_item raw w in
      let others = gather rest first.1 in (first.0 ∷ others.0, others.1)

  abbrev pub forget : Outcome Error String → Outcome Error (Unit {0})
  forget (ok _) = ok _
  forget (raise e) = raise e

  abbrev pub checked_url : Option String → Outcome Error (Unit {0})
  checked_url none = ok _
  checked_url (some url) = forget (validate_callback_url env.urls url)

  abbrev pub batch_items : Act (World f.Num (r.Db × c.Db)) (List (BatchItem f.Num))
  batch_items w = let out = gather b.videos w in (ok out.0, out.1)

  -- The body is validated before the handler's own statements.
  unfoldable pub handle_batch : Act (World f.Num (r.Db × c.Db)) (List (BatchItem f.Num))
  unfolding gather spend validate_callback_url cap_video_count
  handle_batch w = (cap_video_count b.videos, w) >>> λ u w1.
      spend f r c env caller token "batch" w1 >>> λ u2 w2.
      (checked_url b.callback_url, w2) >>> λ u3 w3. batch_items w3

-- `POST /v1/transcript:batch`
unfoldable pub post_transcript_batch :
    (f : Float) (r : Redis) (c : Counters) (env : HttpEnv f.Num (World f.Num (r.Db × c.Db)))
    (caller : Caller) (b : BatchBody)
    → App f.Num (r.Db × c.Db)
    → Outcome ErrorResponse (List (BatchItem f.Num)) × App f.Num (r.Db × c.Db)
unfolding handle_batch route
post_transcript_batch f r c env caller b =
    route f r c env caller ("batch" ∷ []) (handle_batch f r c env caller b)
