-- ===== src/Jobs/Locks.antt =====
-- src/app/jobs.py: the Redis locks, one to a video and an operation.
use text.Mathlib.Text.{◌==◌}
use yt_service.Prelude.{ℕ, String, Bool, Option, none, some, str_cat, if◌then◌else◌}
use yt_service.World.{Redis}

abbrev pub default_lock_ttl_seconds : ℕ
default_lock_ttl_seconds = 3600

unfoldable pub lock_key : String → String → String
lock_key video_id op = str_cat "lock:" (str_cat op (str_cat ":" video_id))

module _ (r : Redis) where
  unfoldable pub acquire_lock : r.Db → String → String → String → ℕ → Bool × r.Db
  acquire_lock db video_id op value ttl_seconds =
      r.set_nx_ex db (lock_key video_id op) value ttl_seconds

  -- the Lua script: delete the key only if it holds the caller's value
  unfoldable pub release_script : r.Db → String → String → ℕ × r.Db
  release_script db key value = elim (r.get db key) [
    | none ↦ (0, db)
    | some owner ↦ if owner == value then (1, r.delete db key) else (0, db)
  ]

  unfoldable pub release_lock : r.Db → String → String → Option String → ℕ × r.Db
  unfolding release_script
  release_lock db video_id op none = (1, r.delete db (lock_key video_id op))
  release_lock db video_id op (some value) = release_script db (lock_key video_id op) value

  unfoldable pub steal_stale_lock : r.Db → String → String → r.Db
  steal_stale_lock db video_id op = r.delete db (lock_key video_id op)
