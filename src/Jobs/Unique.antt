-- ===== src/Jobs/Unique.antt =====
-- Job ids are unique, and stay so.
use pr_reviewer.Base.{
  ℕ, String, List, count_where, Bool, ◌≤◌, ◌≡◌, none, true, arith, ◌++◌, ◌∷◌, [],
  count_where-append, le_trans, refl, some, count_where-delete_where,
}
use pr_reviewer.Jobs.{Job, is_active_in, mark, has_id, superseded, update_where, cancelled}
use pr_reviewer.Jobs.Steps.{Step}
use pr_reviewer.Jobs.Enqueue.{new_job, supersede, target_of}
use pr_reviewer.Jobs.Rows.{count_where-update_where-le}
use pr_reviewer.Jobs.Claim.{start_job}
use pr_reviewer.Jobs.Runner.{start_leased, finish_job}
use pr_reviewer.Jobs.Lease.{renew_lease, is_owned, complete_job, fail_job, is_dead, restart_job}
use pr_reviewer.Jobs.History.{Op}
use pr_reviewer.Jobs.Push.{pushed_row, overwrite, is_in_repository}

-- No id twice.
abbrev pub UniqueIds : List Job → Type 0
UniqueIds js = (i : ℕ) → count_where (has_id i) js ≤ 1

-- The table grows by one row that is not counted, or is the only one.
pub count_where-add :
    (q : Job → Bool) (js : List Job) (j : Job)
    → count_where q js ≤ 1
    → (q j ≡ true → count_where q js ≡ 0)
    → count_where q (js ++ j ∷ []) ≤ 1
count_where-add q js j h f = rw (count_where-append q js (j ∷ [])) (ground arith)

-- An update that keeps ids keeps them unique.
pub update_where-UniqueIds :
    (p : Job → Bool) (f : Job → Job) (js : List Job)
    → ((j : Job) → (f j).id ≡ j.id)
    → UniqueIds js
    → UniqueIds (update_where p f js)
update_where-UniqueIds p f js keep u i =
    le_trans (count_where-update_where-le (has_id i) p f js (λ j _ h. ground (arith, keep j))) (u i)

module _ (now : ℕ) {w : String} where
  pub Step-UniqueIds :
      {op : Op} {js ks : List Job} → Step now w op js ks → UniqueIds js → UniqueIds ks
  Step-UniqueIds Step.stay u = u
  Step-UniqueIds {js = js} (Step.insert id d z) u =
      λ i. count_where-add (has_id i) js (new_job id now d none) (u i) (ground arith)
  Step-UniqueIds {js = js} (Step.replace id t d p z) u = λ i.
      count_where-add (has_id i)
        (supersede now p.installation_id p.github_repository_id p.pull_request_number js)
        (new_job id now d (some (target_of p t))) (le_trans (kept i) (u i)) (ground (arith, kept i))
    where
      kept :
          (i : ℕ)
          → count_where
              (has_id i)
              (supersede now p.installation_id p.github_repository_id p.pull_request_number js)
            ≤ count_where (has_id i) js
      kept i =
          count_where-update_where-le (has_id i)
            (is_active_in p.installation_id p.github_repository_id p.pull_request_number)
            (mark superseded now) js (λ j _ h. h)
  Step-UniqueIds {js = js} (Step.withdraw a r n) u =
      update_where-UniqueIds (is_active_in a r n) (mark cancelled now) js (λ j. refl) u
  Step-UniqueIds {js = js} (Step.start p d {j = j} e) u =
      update_where-UniqueIds (has_id j.id) (start_job w now) js (λ k. refl) u
  Step-UniqueIds {js = js} (Step.start_token p d h {j = j} e) u =
      update_where-UniqueIds (has_id j.id) (start_leased w h now) js (λ k. refl) u
  Step-UniqueIds {js = js} (Step.extend p d) u =
      update_where-UniqueIds p (renew_lease now) js (λ k. refl) u
  Step-UniqueIds {js = js} (Step.succeed i) u =
      update_where-UniqueIds (is_owned i w) (complete_job now) js (λ k. refl) u
  Step-UniqueIds {js = js} (Step.give_up i e) u =
      update_where-UniqueIds (is_owned i w) (fail_job now e) js (λ k. refl) u
  Step-UniqueIds {js = js} (Step.restart i _) u =
      update_where-UniqueIds (is_dead i) (restart_job now) js (λ k. refl) u
  Step-UniqueIds {js = js} (Step.settle ack i e h) u =
      update_where-UniqueIds (has_id i) (finish_job now ack) js (λ k. refl) u
  Step-UniqueIds {js = js} (Step.push_row s z) u =
      λ i. count_where-add (has_id i) js (pushed_row now s) (u i) (ground arith)
  Step-UniqueIds {js = js} (Step.push_over s h) u =
      update_where-UniqueIds (has_id s.review_job_id) (overwrite now s) js (λ k. refl) u
  Step-UniqueIds {js = js} (Step.erase p a r h) u =
      λ i. le_trans (count_where-delete_where (has_id i) (is_in_repository a r) js) (u i)
