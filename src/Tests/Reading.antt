-- ===== src/Tests/Reading.antt =====
-- Two commits that both touch one file.
use pr_reviewer.Base.{refl, [], ◌∷◌, List, String, ◌≡◌, some}
use pr_reviewer.Reading.{
  IsReadOnce, order_files_by_commit_time, ordered_file_reads, order_files-IsReadOnce,
  CommitFileTouch, read_commits, read_paths,
}

abbrev commits : List CommitFileTouch
commits =
    record { committed_at = 1; sha = "s1"; paths = "a.py" ∷ "b.py" ∷ [] }
    ∷ record { committed_at = 2; sha = "s2"; paths = "b.py" ∷ "c.py" ∷ [] }
    ∷ []

abbrev files : List String
files = "b.py" ∷ "c.py" ∷ []

in_first_order : order_files_by_commit_time commits files ≡ some ("b.py" ∷ "c.py" ∷ [])
unfolding order_files_by_commit_time ordered_file_reads read_commits read_paths
in_first_order = refl

order_files-IsReadOnce_example :
    IsReadOnce commits files "b.py" (order_files_by_commit_time commits files)
order_files-IsReadOnce_example = order_files-IsReadOnce commits files "b.py"
