-- ===== src/Analysis/Repeats.antt =====
-- A summary of src/app/tasks/summarize.py that was made is served from the table until it expires.
use text.Mathlib.TextEquality.{eq_iff}
use yt_service.Prelude.{
  ℕ, ◌+◌, ◌*◌, ◌<◌, String, true, false, ◌&&◌, Option, none, some, Option-cases, List, ◌≡◌, refl,
  sym, ap, ◌∙◌, inl, inr, arith, Outcome, ok, raise, Float, find, find-update, lt→ltb,
}
use mathlib.Core.Path.{subst}
use yt_service.Errors.{Error}
use yt_service.Domain.{TranscriptRecord}
use yt_service.Domain.Json.{ReadError}
use yt_service.World.{World}
use yt_service.Cache.{get_transcript}
use yt_service.Llm.Fallback.{Ledger, LlmResponse, execute}
use yt_service.Analysis.{KeyTimestamp, Summary, Desk, AnalysisEnv}
use yt_service.Analysis.Answers.{parse_summary_response}
use yt_service.Analysis.Summaries.{
  SummaryResult, Assignment, Effect, audience_hash, custom_hash, sha256, system_prompt_of,
  is_summary, is_unexpired, lookup_cached_summary, new_summary, persist_summary, of_row,
  of_response, call_for, stored, after_call, after_transcript, compute_summary, if_cached,
  cached_for, with_prompt, summarize,
}

raise-ne_ok : {A : Type 0} (e : Error) (x : A) → ◌≡◌ {A = Outcome Error A} (raise e) (ok x) → ⊥
raise-ne_ok e x h = cc

module _ (f : Float) (env : AnalysisEnv f.Num) (a : Assignment) where
  -- A summary was made, and put among the rows.
  record IsMade {Db : Type 0} (rows : List Summary) (e : Effect f.Num Db) : Type 0 where
    text : String
    timestamps : List KeyTimestamp
    response : LlmResponse
    desk : Desk f.Num Db
    made : e ≡ (
      ok (of_response f env a text timestamps response),
      record desk { summaries = persist_summary f env a text timestamps response rows },
    )

  module _ {Db : Type 0} (res : SummaryResult) where
    stored-IsMade :
        (resp : LlmResponse) (o : Outcome Error (String × List KeyTimestamp)) (d : Desk f.Num Db)
        → (stored f env a resp o d).0 ≡ ok res
        → IsMade d.summaries (stored f env a resp o d)
    stored-IsMade resp (raise e) d h = absurd (raise-ne_ok e res h)
    stored-IsMade resp (ok (text, ts)) d h = record {
      text = text;
      timestamps = ts;
      response = resp;
      desk = d;
      made = refl;
    }

    called-IsMade :
        (o : Outcome Error LlmResponse × Ledger) (d : Desk f.Num Db)
        → (after_call f env a o d).0 ≡ ok res
        → IsMade d.summaries (after_call f env a o d)
    called-IsMade (raise e, l) d h = absurd (raise-ne_ok e res h)
    called-IsMade (ok resp, l) d h =
        stored-IsMade resp (parse_summary_response f env.show env.int_of env.loads resp.text)
          (record d { ledger = l }) h

    computed-IsMade :
        (system : String) (o : Outcome ReadError (Option (TranscriptRecord f.Num)) × World f.Num Db)
        (d : Desk f.Num Db)
        → (after_transcript f env a system o d).0 ≡ ok res
        → IsMade d.summaries (after_transcript f env a system o d)
    computed-IsMade system (raise e, w) d h = absurd (raise-ne_ok _ res h)
    computed-IsMade system (ok none, w) d h = absurd (raise-ne_ok _ res h)
    computed-IsMade system (ok (some rec), w) d h =
        called-IsMade (execute env.llm (call_for f env a system rec) d.ledger)
          (record d { world = w }) h

    cached-IsMade :
        (system : String) (o : Option Summary) (d : Desk f.Num Db)
        → (if_cached f env a system o d).0 ≡ ok res
        → res.cached ≡ false
        → IsMade d.summaries (if_cached f env a system o d)
    unfolding compute_summary
    cached-IsMade system (some row) d h fresh = absurd (stale h fresh)
      where
        stale :
            ◌≡◌ {A = Outcome Error SummaryResult} (ok (of_row f env a row)) (ok res)
            → res.cached ≡ false
            → ⊥
        stale p q = ground arith
    cached-IsMade system none d h fresh =
        computed-IsMade system (get_transcript f env.now a.video_id a.language d.world) d h

    prompted-IsMade :
        (o : Outcome Error String) (d : Desk f.Num Db)
        → (with_prompt f env a o d).0 ≡ ok res
        → res.cached ≡ false
        → (system : String) × (o ≡ ok system) × IsMade d.summaries (with_prompt f env a o d)
    prompted-IsMade (raise e) d h fresh = absurd (raise-ne_ok e res h)
    prompted-IsMade (ok system) d h fresh = (
      system,
      refl,
      cached-IsMade system (cached_for f env a a.provider_override d.summaries) d h fresh,
    )

  module _ (later : ℕ) (soon : later < env.now + env.summary_cache_ttl_days * 86400) (text : String)
      (ts : List KeyTimestamp) (resp : LlmResponse) where
    row-is_live :
        (is_summary f env a (new_summary f env a text ts resp)
          && is_unexpired f (record env { now = later }) (new_summary f env a text ts resp))
        ≡ true
    unfolding new_summary
    row-is_live = ground (
      arith,
      eq_iff a.video_id a.video_id,
      eq_iff a.style a.style,
      eq_iff (audience_hash f env a) (audience_hash f env a),
      eq_iff (custom_hash f env a) (custom_hash f env a),
      lt→ltb later (env.now + env.summary_cache_ttl_days * 86400) soon,
    )

    lookup-persist :
        (rows : List Summary)
        → lookup_cached_summary f
            (record env { now = later })
            a
            (persist_summary f env a text ts resp rows)
          ≡ some (new_summary f env a text ts resp)
    unfolding lookup_cached_summary persist_summary sha256
    lookup-persist rows = elim (Option-cases (find (is_summary f env a) rows)) [
      | inl e ↦ rw (e, row-is_live)
      | inr (t, e) ↦ rw e (
          find-update (is_summary f env a) (is_unexpired f (record env { now = later }))
            (λ s. new_summary f env a text ts resp) rows t (λ u k. row-is_live) e)
    ]

  ok_eq : {x y : SummaryResult} → ◌≡◌ {A = Outcome Error SummaryResult} (ok x) (ok y) → x ≡ y
  ok_eq h = cc

  -- The answer of the table, marked and with the rounded cost.
  abbrev again : SummaryResult → SummaryResult
  again res = record res { cached = true; cost_usd = env.llm.numeric res.cost_usd }

  abbrev at_time : ℕ → AnalysisEnv f.Num
  at_time later = record env { now = later }

  module _ (later : ℕ) (soon : later < env.now + env.summary_cache_ttl_days * 86400)
      (plain : a.provider_override ≡ none) {Db : Type 0} where
    served :
        (system text : String) (ts : List KeyTimestamp) (resp : LlmResponse) (rows : List Summary)
        (d : Desk f.Num Db)
        → d.summaries ≡ persist_summary f env a text ts resp rows
        → with_prompt f (at_time later) a (ok system) d
          ≡ (ok (again (of_response f env a text ts resp)), d)
    unfolding new_summary
    served system text ts resp rows d eq =
        ap
          (λ o.
            if_cached f (at_time later) a system (cached_for f (at_time later) a o d.summaries) d)
          plain
        ∙ ap
            (λ rs.
              if_cached f (at_time later) a system (lookup_cached_summary f (at_time later) a rs) d)
            eq
        ∙ ap (λ o. if_cached f (at_time later) a system o d)
            (lookup-persist later soon text ts resp rows)

    -- A summary that was made without an override is served again until it expires: a second request,
    -- at any time before, has the same answer, marked as cached and with the cost as its column rounds
    -- it, and changes nothing: no provider is called, and nothing is logged or counted.
    pub summarize-summarize :
        (d : Desk f.Num Db) (res : SummaryResult)
        → (summarize f env a d).0 ≡ ok res
        → res.cached ≡ false
        → summarize f (record env { now = later }) a (summarize f env a d).1 ≡ (
          ok (record res { cached = true; cost_usd = env.llm.numeric res.cost_usd }),
          (summarize f env a d).1,
        )
    unfolding summarize
    summarize-summarize d res h fresh =
        let (system, prompt, m) = prompted-IsMade res (system_prompt_of f env a) d h fresh in
        let same : of_response f env a m.text m.timestamps m.response ≡ res =
          ok_eq (sym (ap (λ (e : Effect f.Num Db). e.0) m.made) ∙ h) in
        let after = record m.desk {
          summaries = persist_summary f env a m.text m.timestamps m.response d.summaries;
        } in
        subst
          (λ (o : Outcome Error String).
            with_prompt f (at_time later) a o (summarize f env a d).1
            ≡ (ok (again res), (summarize f env a d).1))
          (sym prompt)
          (subst
            (λ (e : Effect f.Num Db).
              with_prompt f (at_time later) a (ok system) e.1 ≡ (ok (again res), e.1))
            (sym m.made)
            (served system m.text m.timestamps m.response d.summaries after refl
              ∙ ap (λ x. (ok (again x), after)) same))
