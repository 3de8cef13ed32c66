-- ===== src/Jobs/Keys.antt =====
-- The lock keys of src/app/jobs.py tell videos and job types apart.
use Prim.Native.Char.{Char, code}
use text.Mathlib.TextEquality.{eq_iff}
use text.Mathlib.TextLemmas.{cons-append, head-eq_of_cons-eq}
use yt_service.Prelude.{
  String, some, ◌≡◌, ◌≢◌, ap, sym, ◌∙◌, inl, inr, arith, ◌⊎◌, str_cat, cat_cancel,
}
use yt_service.Jobs.Ledger.{JobEntry, job_registry}
use yt_service.Jobs.Locks.{lock_key}

-- The two registered types, with the operation that each locks.
registry-cases :
    (t : String) (e : JobEntry)
    → job_registry t ≡ some e
    → ((t ≡ "whisper") × (e.lock_op ≡ "whisper")) ⊎ ((t ≡ "enrichment") × (e.lock_op ≡ "diarize"))
unfolding job_registry
registry-cases t e h = ground (arith, eq_iff t "whisper", eq_iff t "enrichment")

w≢d : ◌≢◌ {A = Char} "w" "d"
w≢d h = omega (arith, ap code h)

whisper-ne-diarize : (u v : String) → lock_key u "whisper" ≡ lock_key v "diarize" → ⊥
unfolding lock_key
whisper-ne-diarize u v h =
    let u' = str_cat ":" u in
    let v' = str_cat ":" v in
    w≢d (
      head-eq_of_cons-eq (
        sym (cons-append "w" "hisper" u')
        ∙ cat_cancel "lock:" (str_cat "whisper" u') (str_cat "diarize" v') h
        ∙ cons-append "d" "iarize" v'))

key_cancel : (u v op : String) → lock_key u op ≡ lock_key v op → u ≡ v
unfolding lock_key
key_cancel u v op h = cat_cancel ":" u v (cat_cancel op _ _ (cat_cancel "lock:" _ _ h))

-- Two registered job types and two videos share a lock key only if they are the same type and video.
pub lock_key-injective :
    (u v s t : String) (e f : JobEntry)
    → job_registry s ≡ some e
    → job_registry t ≡ some f
    → lock_key u e.lock_op ≡ lock_key v f.lock_op
    → (u ≡ v) × (s ≡ t)
lock_key-injective u v s t e f he hf h = both (registry-cases s e he) (registry-cases t f hf)
  where
    both :
        ((s ≡ "whisper") × (e.lock_op ≡ "whisper")) ⊎ ((s ≡ "enrichment") × (e.lock_op ≡ "diarize"))
        → ((t ≡ "whisper") × (f.lock_op ≡ "whisper"))
          ⊎ ((t ≡ "enrichment") × (f.lock_op ≡ "diarize"))
        → (u ≡ v) × (s ≡ t)
    both (inl (a, b)) (inl (c, d)) = (key_cancel u v "whisper" (cc (b, d, h)), a ∙ sym c)
    both (inl (a, b)) (inr (c, d)) = absurd (whisper-ne-diarize u v (cc (b, d, h)))
    both (inr (a, b)) (inl (c, d)) = absurd (whisper-ne-diarize v u (cc (b, d, h)))
    both (inr (a, b)) (inr (c, d)) = (key_cancel u v "diarize" (cc (b, d, h)), a ∙ sym c)
