-- ===== src/Reading.antt =====
-- src/pr_reviewer/reviewer/read_order.py: the files of a series of commits, each once, in the order
-- in which the commits first touch them. `none` is the ValueError for commits out of order.
use pr_reviewer.Base.{
  refl, [], ◌∷◌, List, String, ℕ, count_where, if◌then◌else◌, ◌≤◌, Option, ◌≡◌, none, Bool, ◌+◌,
  ◌==◌, arith, true, some, false, str_eq, Bool-cases, not, ◌++◌, inr, inl, ltb, str_eq_iff, ◌&&◌,
  str_eq_refl, count_where-append, subst, sym,
}

pub record CommitFileTouch : Type 0 where
  pub committed_at : ℕ
  pub sha : String
  pub paths : List String

abbrev pub in_time_order : List CommitFileTouch → Bool
in_time_order [] = true
in_time_order (previous ∷ []) = true
in_time_order (previous ∷ current ∷ commits) =
    not (ltb current.committed_at previous.committed_at) && in_time_order (current ∷ commits)

-- How often a path is in a list.
abbrev pub times : String → List String → ℕ
times path = count_where (λ x. str_eq x path)

-- `if path in seen: continue`: the set `seen` has the paths of `ordered`
abbrev pub add_path : List String → String → List String
add_path ordered path = if times path ordered == 0 then ordered ++ path ∷ [] else ordered

unfoldable pub read_paths : List String → List String → List String
read_paths ordered [] = ordered
read_paths ordered (path ∷ paths) = read_paths (add_path ordered path) paths

unfoldable pub read_commits : List String → List CommitFileTouch → List String
read_commits ordered [] = ordered
read_commits ordered (commit ∷ commits) = read_commits (read_paths ordered commit.paths) commits

unfoldable pub ordered_file_reads : List CommitFileTouch → Option (List String)
ordered_file_reads commits = if in_time_order commits then some (read_commits [] commits) else none

abbrev pub keep_named : List String → List String → List String
keep_named requested [] = []
keep_named requested (path ∷ paths) =
    let rest = keep_named requested paths in if times path requested == 0 then rest else path ∷ rest

abbrev pub keep_ordered : List String → Option (List String) → Option (List String)
keep_ordered requested none = none
keep_ordered requested (some ordered) = some (keep_named requested ordered)

unfoldable pub order_files_by_commit_time :
    List CommitFileTouch → List String → Option (List String)
order_files_by_commit_time commits files = keep_ordered files (ordered_file_reads commits)

-- 1 for a path that is there, and else 0
abbrev pub once : ℕ → ℕ
once n = if n == 0 then 0 else 1

times-add_path :
    (q p : String) (ordered : List String)
    → times q ordered ≤ 1
    → times q (add_path ordered p) ≡ once (times q ordered + (if str_eq p q then 1 else 0))
times-add_path q p ordered h = elim (Bool-cases (str_eq p q)) [
  | inl e ↦
      let i : p ≡ q = (str_eq_iff p q).0 e in
      rw i (ground (arith, str_eq_refl q, count_where-append (λ x. str_eq x q) ordered (q ∷ [])))
  | inr e ↦ ground (arith, count_where-append (λ x. str_eq x q) ordered (p ∷ []))
]

times-read_paths :
    (q : String) (ordered paths : List String)
    → times q ordered ≤ 1
    → times q (read_paths ordered paths) ≡ once (times q ordered + times q paths)
unfolding read_paths
times-read_paths q ordered [] h = ground arith
times-read_paths q ordered (p ∷ paths) h =
    ground (arith, times-add_path q p ordered h, times-read_paths q (add_path ordered p) paths)

-- How often commits touch a path.
abbrev pub touches : String → List CommitFileTouch → ℕ
touches path [] = 0
touches path (commit ∷ commits) = times path commit.paths + touches path commits

times-read_commits :
    (q : String) (ordered : List String) (commits : List CommitFileTouch)
    → times q ordered ≤ 1
    → times q (read_commits ordered commits) ≡ once (times q ordered + touches q commits)
unfolding read_commits
times-read_commits q ordered [] h = ground arith
times-read_commits q ordered (c ∷ commits) h = ground (
  arith,
  times-read_paths q ordered c.paths h,
  times-read_commits q (read_paths ordered c.paths) commits,
)

times-keep_named :
    (q : String) (files paths : List String)
    → times q (keep_named files paths) ≡ (if times q files == 0 then 0 else times q paths)
times-keep_named q files [] = ground arith
times-keep_named q files (p ∷ paths) = elim (Bool-cases (str_eq p q)) [
  | inl e ↦
      let i : p ≡ q = (str_eq_iff p q).0 e in
      rw i (ground (arith, str_eq_refl q, times-keep_named q files paths))
  | inr e ↦ ground (arith, times-keep_named q files paths)
]

-- What the answer says of one path.
abbrev pub IsReadOnce : List CommitFileTouch → List String → String → Option (List String) → Type 0
IsReadOnce commits files path none = in_time_order commits ≡ false
IsReadOnce commits files path (some paths) =
    (in_time_order commits ≡ true)
    × (times path paths ≡ (if times path files == 0 then 0 else once (touches path commits)))

-- Commits in the order of their times are read, and the files that come out are, each exactly once,
-- those that were asked for and that some commit touches. Commits that are out of order are refused.
pub order_files-IsReadOnce :
    (commits : List CommitFileTouch) (files : List String) (path : String)
    → IsReadOnce commits files path (order_files_by_commit_time commits files)
unfolding order_files_by_commit_time ordered_file_reads
order_files-IsReadOnce commits files path = elim (Bool-cases (in_time_order commits)) [
  | inr e ↦
      let q : order_files_by_commit_time commits files ≡ none = rw e refl in
      subst (IsReadOnce commits files path) (sym q) e
  | inl e ↦
      let r = read_commits [] commits in
      let q : order_files_by_commit_time commits files ≡ some (keep_named files r) = rw e refl in
      let a = times-keep_named path files r in
      let b = times-read_commits path [] commits (omega arith) in
      subst (IsReadOnce commits files path) (sym q) (e, ground (arith, a, b))
]
