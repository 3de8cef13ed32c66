-- ===== src/Tests/Cache.antt =====
-- The theorems on src/app/cache.py at concrete inputs.
use yt_service.Prelude.{
  ◌+◌, ◌*◌, ◌<◌, String, true, false, none, some, [], ◌∷◌, ◌≡◌, ◌≢◌, refl, arith, ok, str_eq, ap,
}
use yt_service.Cache.{new_row, put_transcript, get_transcript}
use yt_service.Cache.Codec.{
  map_read, snippet_to_dict, dict_to_snippet, read_chapters, row_to_record,
}
use yt_service.Cache.Abstract.{put, purge, get, run_cache, run_entries}
use yt_service.Cache.Refinement.{run_cache-run_entries}
use yt_service.Cache.RoundTrip.{stored_chapters, read_back, get-put_transcript}
use yt_service.Tests.Fixtures.{hundredths, Place, empty, transcript_record}

soon : 20 < 10 + 1 * 86400
soon = omega arith

no_chapters : stored_chapters hundredths empty "v1" "en" ≡ ok none
unfolding stored_chapters
no_chapters = refl

get-put_transcript_example :
    (get_transcript hundredths 20 "v1" "en"
      (put_transcript 10 7 transcript_record (some 1) empty)).0
    ≡ ok (some (read_back hundredths 10 20 1 transcript_record soon none))
get-put_transcript_example =
    get-put_transcript hundredths 10 20 1 transcript_record soon 7 empty none no_chapters

tested : true ≡ false → ⊥
tested h = cc

other_video : ◌≢◌ {A = String} "v1" "v2"
other_video e = tested (ap (λ s. str_eq s "v1") e)

abbrev stored : Place
stored = record empty { transcripts = new_row 10 1 transcript_record ∷ [] }

hit : (get_transcript hundredths 20 "v1" "en" stored).0 ≡ ok (some transcript_record)
unfolding get_transcript new_row row_to_record map_read dict_to_snippet snippet_to_dict
    read_chapters
hit = refl

run_cache-run_entries_example :
    run_cache hundredths
      (put 10 1 transcript_record ∷ purge "v2" ∷ get 20 "v1" "en" ∷ get 90000 "v1" "en" ∷ [])
      empty
    ≡ run_entries
        (put 10 1 transcript_record ∷ purge "v2" ∷ get 20 "v1" "en" ∷ get 90000 "v1" "en" ∷ [])
        (λ v l. none)
run_cache-run_entries_example =
    run_cache-run_entries hundredths
      (put 10 1 transcript_record ∷ purge "v2" ∷ get 20 "v1" "en" ∷ get 90000 "v1" "en" ∷ []) empty
      refl
