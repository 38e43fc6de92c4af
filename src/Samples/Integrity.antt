-- ===== src/Samples/Integrity.antt =====
-- Two small workspaces, and the theorem of `Verification.Integrity` at them.
use long_running_coding_agen.Prelude.{str_leb, ℕ, String, refl, false, List, [], ◌∷◌, str_eq}
use long_running_coding_agen.Verification.Schema.{WorkspaceKind}
use long_running_coding_agen.Verification.Integrity.{
  FileManifestEntry, WorkspaceManifest, IntegrityRules, Paths, validate,
}
use long_running_coding_agen.Verification.Integrity.Clean.{IsClean, validate-IsClean}

abbrev file : String → String → FileManifestEntry
file path digest = record { relative_path = path; sha256 = digest; size = 9; mode = 420 }

abbrev workspace : WorkspaceKind → List FileManifestEntry → WorkspaceManifest
workspace kind files = record {
  workspace_kind = kind;
  root = ".";
  fingerprint = "f";
  files = files;
  created_at = "t";
}

-- The candidate has changed one file and added another.
abbrev baseline : WorkspaceManifest
baseline = workspace WorkspaceKind.baseline (file "tests/a.py" "1" ∷ file "m.py" "2" ∷ [])

abbrev candidate : WorkspaceManifest
candidate =
    workspace WorkspaceKind.candidate
      (file "tests/a.py" "1" ∷ file "m.py" "3" ∷ file "n.py" "4" ∷ [])

abbrev rules : IntegrityRules
rules = record {
  protected_paths = [];
  trusted_test_patterns = "tests/a.py" ∷ [];
  forbidden_change_patterns = [];
  allowed_change_patterns = "m.py" ∷ "n.py" ∷ [];
  required_artifacts = "m.py" ∷ [];
  contract_paths = [];
  hidden_asset_markers = "hidden" ∷ [];
  max_deleted_files = 0;
  max_binary_file_bytes = 100;
  allow_project_config_changes = false;
  allowed_test_directories = "tests" ∷ [];
}

-- Patterns without wildcards, and paths without directories.
abbrev paths : Paths
paths = record {
  fnmatch = str_eq;
  rstrip = λ t. t;
  lower = λ t. t;
  ends_with = λ suffix t. false;
  name = λ t. t;
  exists = λ t. str_eq t "m.py";
  looks_binary = λ t. false;
}

abbrev numbers : ℕ → String
numbers n = "v"

validate-IsClean_example : IsClean paths rules baseline candidate
unfolding validate str_leb
validate-IsClean_example = validate-IsClean paths rules numbers baseline candidate refl
