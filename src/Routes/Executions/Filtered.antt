-- ===== src/Routes/Executions/Filtered.antt =====
-- `getJobs` of api/src/services/queue.ts with a time to filter by.
use codehive.Errors.{Error}
use codehive.Queue.Spec.Memory.Preserve.{look_up-Implements}
use codehive.Prelude.Exec.{throw, Result, ok}
use codehive.Prelude.Int.{last_index, pos-+ℤ-pos, pos}
use codehive.Prelude.{
  length-keep_le, ◌-◌, ◌+◌, true, sym, Bool-cases, inr, arith, inl, keep, zero, ◌∙◌, ap, false, suc,
  reverse, str_eq, drop, ◌≡◌, if◌then◌else◌, take, String, Bool, Option, ℕ, List, [], ◌∷◌, some,
  none, refl,
}
use codehive.Types.{Job}
use codehive.Queue.Spec.{Spec}
use codehive.Queue.Platform.{Platform}
use codehive.Queue.World.{World}
use codehive.Queue.Memory.{find, is_since, since_order, truthy, text_ge, mem_get_jobs}
use codehive.Queue.Service.{
  job_key, add_job, truthy_text, collect_one, collected, get_jobs, get_redis, chosen,
}
use codehive.Queue.Spec.Memory.Relation.{Implements}
use codehive.Queue.Spec.Redis.Relation.{Stores}
use codehive.Queue.Spec.Serves.{Serves}
use codehive.Routes.Executions.Laws.{
  length-jobs_of-take_le, slice-few, collected-eq, jobs_of, found_jobs-eq, slice-pos,
}
use codehive.Routes.Executions.Counts.{made_since, truthy-cases, collected-since}
use codehive.Routes.Executions.Times.{text_ge-empty}

-- Over memory the filter comes before the page is cut out, and over Redis behind it.
abbrev pub page_memory : Spec → ℕ → ℕ → Option String → List Job
page_memory s limit offset none = jobs_of s.job (take limit (drop offset s.pending))
page_memory s limit offset (some t) =
    take limit (drop offset (made_since t (jobs_of s.job s.pending)))

abbrev pub page_redis : Spec → ℕ → ℕ → Option String → List Job
page_redis s limit offset none = jobs_of s.job (take limit (drop offset (reverse s.pending)))
page_redis s limit offset (some t) =
    made_since t (jobs_of s.job (take limit (drop offset (reverse s.pending))))

abbrev pub page : Bool → Spec → ℕ → ℕ → Option String → List Job
page b s limit offset since =
    if b
    then page_redis s limit offset (truthy since)
    else page_memory s limit offset (truthy since)

-- identifiers that all have a job
abbrev AllKnown : (String → Option Job) → List String → Type 0
AllKnown job [] = Unit
AllKnown job (id ∷ ids) = ((j : Job) × (job id ≡ some j)) × AllKnown job ids

module _ (job : String → Option Job) where
  jobs_of-take :
      (n : ℕ) (ids : List String)
      → AllKnown job ids
      → jobs_of job (take n ids) ≡ take n (jobs_of job ids)
  jobs_of-take zero ids k = refl
  jobs_of-take (suc n) [] k = refl
  jobs_of-take (suc n) (id ∷ ids) ((j, e), k) = ground (arith, jobs_of-take n ids k)

  jobs_of-drop :
      (n : ℕ) (ids : List String)
      → AllKnown job ids
      → jobs_of job (drop n ids) ≡ drop n (jobs_of job ids)
  jobs_of-drop zero ids k = refl
  jobs_of-drop (suc n) [] k = refl
  jobs_of-drop (suc n) (id ∷ ids) ((j, e), k) = ground (arith, jobs_of-drop n ids k)

  drop-AllKnown : (n : ℕ) (ids : List String) → AllKnown job ids → AllKnown job (drop n ids)
  drop-AllKnown zero ids k = k
  drop-AllKnown (suc n) [] k = k
  drop-AllKnown (suc n) (id ∷ ids) (e, k) = drop-AllKnown n ids k

module _ {S : Type 0} {w : World S} {s : Spec} (h : Implements w s) (t : String)
    (n : str_eq t "" ≡ false) where
  -- the identifiers that pass the filter are those of the jobs that pass it
  since_jobs :
      (ids : List String)
      → jobs_of s.job (keep (is_since w t) ids) ≡ made_since t (jobs_of s.job ids)
  unfolding is_since
  since_jobs [] = refl
  since_jobs (id ∷ ids) = ground (arith, h.jobs id, since_jobs ids, text_ge-empty t n)

  passed_some :
      (o : Option Job)
      → elim o [ none ↦ text_ge "" t | some job ↦ text_ge job.created_at t ] ≡ true
      → (j : Job) × (o ≡ some j)
  passed_some none p = cc (p, text_ge-empty t n)
  passed_some (some j) p = (j, refl)

  passed_known : (id : String) → is_since w t id ≡ true → (j : Job) × (s.job id ≡ some j)
  unfolding is_since
  passed_known id p = let (j, e) = passed_some (find w id) p in (j, sym (h.jobs id) ∙ e)

  since-AllKnown : (ids : List String) → AllKnown s.job (keep (is_since w t) ids)
  since-AllKnown [] = tt
  since-AllKnown (id ∷ ids) = elim (Bool-cases (is_since w t id)) [
    | inl late ↦ rw late (passed_known id late, since-AllKnown ids)
    | inr early ↦ rw early (since-AllKnown ids)
  ]

  -- the filtered page
  filtered_page :
      (limit offset : ℕ) (ids : List String)
      → jobs_of s.job (take limit (drop offset (keep (is_since w t) ids)))
        ≡ take limit (drop offset (made_since t (jobs_of s.job ids)))
  filtered_page limit offset ids =
      let known = since-AllKnown ids in
      jobs_of-take s.job limit _ (drop-AllKnown s.job offset _ known)
      ∙ ap (take limit) (jobs_of-drop s.job offset _ known ∙ ap (drop offset) (since_jobs ids))

-- a job that passes the filter, before those behind it
abbrev added : Job → List Job → Option String → Result Error (List Job)
added job jobs o =
    if (elim o [ none ↦ true | some t ↦ text_ge job.created_at t ])
    then ok (job ∷ jobs)
    else ok jobs

-- only the time that is looked at counts
module _ {S V : Type 0} (P : Platform S V) (since since' : Option String)
    (n : truthy since ≡ truthy since') where
  add_job-time :
      (j : Result Error Job) (rest : Result Error (List Job))
      → add_job P since j rest ≡ add_job P since' j rest
  add_job-time (throw e) rest = refl
  add_job-time (ok job) (throw e) = refl
  add_job-time (ok job) (ok jobs) = ap (added job jobs) n

  collect_one-time :
      (o : Option V) (rest : Result Error (List Job))
      → collect_one P since o rest ≡ collect_one P since' o rest
  collect_one-time none rest = refl
  collect_one-time (some text) rest = add_job-time (P.parse text) rest

  collected-time :
      (server : S) (ids : List String)
      → collected P since server ids ≡ collected P since' server ids
  unfolding collected
  collected-time server [] = refl
  collected-time server (id ∷ ids) =
      collect_one-time (truthy_text P (P.get (job_key id) server)) (collected P since server ids)
      ∙ ap (collect_one P since' (truthy_text P (P.get (job_key id) server)))
          (collected-time server ids)

module _ {S V : Type 0} (P : Platform S V) {w : World S} {s : Spec} where
  get_jobs-memory_page :
      Implements w s
      → (limit offset : ℕ) (since : Option String)
      → (get_jobs P (pos limit) (pos offset) since w).0
        ≡ ok (page_memory s limit offset (truthy since))
  unfolding get_jobs mem_get_jobs since_order
  get_jobs-memory_page h limit offset since =
      let h' = look_up-Implements h in
      elim (truthy-cases since) [
        | inl n ↦
            rw (h.backend, n, since_order, h.order, pos-+ℤ-pos, slice-pos offset limit s.pending)
              (ap ok (found_jobs-eq h' (take limit (drop offset s.pending))))
        | inr (t, e, given) ↦
            rw (h.backend, e, since_order, h.order, pos-+ℤ-pos, slice-pos)
              (ap ok (found_jobs-eq h' _ ∙ filtered_page h' t given limit offset s.pending))
      ]

  get_jobs-redis_page :
      Stores P w s
      → (limit offset : ℕ) (since : Option String)
      → (get_jobs P (pos (suc limit)) (pos offset) since w).0
        ≡ ok (page_redis s (suc limit) offset (truthy since))
  unfolding get_jobs get_redis
  get_jobs-redis_page h limit offset since =
      let span : offset + limit + 1 - offset ≡ suc limit = omega arith in
      let ids = drop offset (reverse s.pending) in
      elim (truthy-cases since) [
        | inl n ↦
            rw
              (
                h.backend,
                last_index,
                P.lrange-pos,
                h.order,
                collected-time P since none n w.server,
                collected-eq P h,
                span,
              )
              (ap ok (
                slice-few limit (jobs_of s.job (take (suc limit) ids))
                  (length-jobs_of-take_le s.job limit ids)))
            ∙ ap (λ o. ok (page_redis s (suc limit) offset o)) (sym n)
        | inr (t, e, given) ↦
            let few = made_since t (jobs_of s.job (take (suc limit) ids)) in
            rw
              (
                h.backend,
                last_index,
                P.lrange-pos,
                h.order,
                collected-time P since (some t) (e ∙ (ground (arith, given))) w.server,
                collected-since P h t given,
                span,
              )
              (ap ok (
                slice-few limit few (
                  omega (
                    arith,
                    length-keep_le (λ j. text_ge j.created_at t)
                        (jobs_of s.job (take (suc limit) ids)),
                    length-jobs_of-take_le s.job limit ids,
                  ))))
            ∙ ap (λ o. ok (page_redis s (suc limit) offset o)) (sym e)
      ]

  -- With a limit that is not zero and an offset, and with a time to filter by or without: over memory
  -- `getJobs` lists the waiting jobs that were made at that time or later, from the offset and at most as
  -- many as the limit, the one that waited longest first; over Redis it takes that page of all waiting
  -- identifiers, the latest first, and lists those of its jobs that pass. The empty time is no filter.
  pub get_jobs_lem :
      Serves P w s
      → (limit offset : ℕ) (since : Option String)
      → (get_jobs P (pos (suc limit)) (pos offset) since w).0
        ≡ ok (page (chosen w) s (suc limit) offset since)
  get_jobs_lem (inl h) limit offset since =
      get_jobs-memory_page h (suc limit) offset since ∙ rw h.backend refl
  get_jobs_lem (inr h) limit offset since =
      get_jobs-redis_page h limit offset since ∙ rw h.backend refl
