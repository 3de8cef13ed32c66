-- ===== src/DeepLinks.antt =====
-- src/app/deep_links.py: links that resume a video at a snippet.
use yt_service.Prelude.{String, List, map, str_cat, Float}
use yt_service.Domain.{Snippet}

module _ (f : Float) where
  unfoldable pub compute_deep_link : String → f.Num → String
  compute_deep_link video_id start_seconds =
      str_cat "https://youtu.be/" (str_cat video_id (str_cat "?t=" (f.int_text start_seconds)))

  unfoldable pub with_deep_links : List (Snippet f.Num) → String → List (Snippet f.Num)
  unfolding compute_deep_link
  with_deep_links snippets video_id =
      map {A = Snippet f.Num} (λ s. record s { deep_link = compute_deep_link video_id s.start })
        snippets
