-- ===== src/Packing.antt =====
-- The diff that a reviewer is shown: src/pr_reviewer/reviewer/hunk_format.py, which numbers the new
-- side of a patch, and reviewer/diff_budget.py, which packs whole files into a budget of tokens,
-- over contracts/review_context.py. Python's text functions come as `Text`.
pub mod Hunks
pub mod Diff
pub mod Budget
pub mod Made
pub mod Numbers
use pr_reviewer.Base.{
  refl, [], ◌∷◌, List, String, Option, some, Bool, ℕ, if◌then◌else◌, str_eq, none,
}

-- str.splitlines, "\n".join, s[1:], str of an int, and the two regular expressions: the new start
-- that a hunk header gives, and the number before a bar at the start of a line.
pub record Text : Type 0 where
  pub splitlines : String → List String
  pub join : List String → String
  pub tail : String → String
  pub show : ℕ → String
  pub hunk_header : String → Option ℕ
  pub new_line : String → Option ℕ

-- contracts/github.py
pub data OmissionReason : Type 0 where
  token_budget patch_omitted_by_github patch_truncated_by_github binary generated ignored_path
        file_size_limit clone_timeout :
      OmissionReason

pub record FilePatch : Type 0 where
  pub path : String
  pub patch : String
  pub previous_path : Option String

-- github/pull_request.py, the fields that are read here
pub record PullRequestFile : Type 0 where
  pub path : String
  pub patch : Option String
  pub previous_path : Option String
  pub is_truncated : Bool
  pub is_binary : Bool
  pub omission_reason : Option OmissionReason

pub record ReviewContextItem : Type 0 where
  pub file_path : String
  pub line_start : ℕ
  pub line_end : ℕ
  pub content : String
  pub content_hash : String

pub record OmittedFile : Type 0 where
  pub path : String
  pub reason : OmissionReason
  pub change_size : ℕ

pub record PackedDiff : Type 0 where
  pub items : List ReviewContextItem
  pub included_files : List String
  pub omitted_files : List OmittedFile
  pub prompt_tokens : ℕ
  pub covers_all_changed_files : Bool

-- `x or y` of an optional text: an empty text counts as none
abbrev pub text_or : Option String → String → String
text_or none y = y
text_or (some x) y = if str_eq x "" then y else x
