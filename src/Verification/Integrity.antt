-- ===== src/Verification/Integrity.antt =====
-- src/longrun_agent/verification/integrity.py: what a change of the workspace may touch.
pub mod Clean
use Prim.Native.String.{◌++◌ as append}
use long_running_coding_agen.Prelude.{
  starts_with, ℕ, suc, String, ◌≡◌, Bool, true, false, not, ◌&&◌, ◌||◌, Option, none, some, List,
  [], ◌∷◌, ◌++◌, map, str_eq, if◌then◌else◌, ltb, any, select, find_last, elem, to_set, sorted,
  length, is_empty, note,
}
use long_running_coding_agen.Verification.Schema.{IntegrityViolation, Severity, WorkspaceKind}

pub record FileManifestEntry : Type 0 where
  pub relative_path : String
  pub sha256 : String
  pub size : ℕ
  pub mode : ℕ

pub record WorkspaceManifest : Type 0 where
  pub workspace_kind : WorkspaceKind
  pub root : String
  pub fingerprint : String
  pub files : List FileManifestEntry
  pub created_at : String

pub record IntegrityRules : Type 0 where
  pub protected_paths : List String
  pub trusted_test_patterns : List String
  pub forbidden_change_patterns : List String
  pub allowed_change_patterns : List String
  pub required_artifacts : List String
  pub contract_paths : List String
  pub hidden_asset_markers : List String
  pub max_deleted_files : ℕ
  pub max_binary_file_bytes : ℕ
  pub allow_project_config_changes : Bool
  pub allowed_test_directories : List String

-- What the rules take from Python: `fnmatch`, the methods of paths and texts, and the files below
-- the root of the candidate.
pub record Paths : Type 0 where
  pub fnmatch : (path pattern : String) → Bool
  -- `text.rstrip("/")`
  pub rstrip : String → String
  pub lower : String → String
  pub ends_with : (suffix text : String) → Bool
  -- `Path(path).name`
  pub name : String → String
  -- `(candidate_root / path).exists()`
  pub exists : String → Bool
  -- `_looks_binary(candidate_root / path)`
  pub looks_binary : String → Bool

-- A violation before its identifier: its category, its path and its summary.
abbrev pub Breach : Type 0
Breach = String × String × String

abbrev pub path_of : FileManifestEntry → String
path_of e = e.relative_path

-- `{entry.relative_path: entry for entry in files}`, asked for its keys and for an entry.
unfoldable pub keys : WorkspaceManifest → List String
unfolding to_set
keys m = to_set (map path_of m.files)

unfoldable pub entry : WorkspaceManifest → String → Option FileManifestEntry
unfolding find_last
entry m path = find_last (λ (e : FileManifestEntry). str_eq e.relative_path path) m.files

abbrev pub same_digest : Option FileManifestEntry → Option FileManifestEntry → Bool
same_digest (some a) (some b) = str_eq a.sha256 b.sha256
same_digest _ _ = false

unfoldable pub changed : WorkspaceManifest → WorkspaceManifest → List String
unfolding keys entry elem select
changed baseline candidate =
    select
      (λ path.
        elem path (keys candidate)
        && not (same_digest (entry baseline path) (entry candidate path)))
      (keys baseline)

-- `set(a) - set(b)` on the paths of two manifests
unfoldable pub without_paths : WorkspaceManifest → WorkspaceManifest → List String
unfolding keys elem select
without_paths a b = select (λ path. not (elem path (keys b))) (keys a)

-- `sorted(a | b)`
unfoldable pub union : List String → List String → List String
unfolding sorted to_set
union a b = sorted (to_set (a ++ b))

module _ (paths : Paths) where
  -- `_matches`
  unfoldable pub matches : String → List String → Bool
  unfolding any
  matches path patterns = any (λ p. paths.fnmatch path p || str_eq path (paths.rstrip p)) patterns

  -- The loop over the paths that were changed or deleted.
  unfoldable pub modified_breaches : IntegrityRules → List String → List Breach
  unfolding matches note
  modified_breaches rules [] = []
  modified_breaches rules (p ∷ ps) =
      note (matches p rules.protected_paths)
        ("protected_path_modified", p, "A protected path was modified or deleted.")
        (note (matches p rules.trusted_test_patterns)
          ("trusted_test_modified", p, "A trusted test was modified or deleted.")
          (note (matches p rules.contract_paths)
            ("contract_modified", p, "A verification contract path was modified.")
            (modified_breaches rules ps)))

  -- The loop over the paths that were changed, added or deleted.
  unfoldable pub touched_breaches : IntegrityRules → List String → List Breach
  unfolding matches note
  touched_breaches rules [] = []
  touched_breaches rules (p ∷ ps) =
      note (matches p rules.forbidden_change_patterns)
        ("forbidden_change", p, "A forbidden change pattern was matched.")
        (note
          (not (is_empty rules.allowed_change_patterns)
            && not (matches p rules.allowed_change_patterns))
          ("outside_allowed_changes", p, "A changed path is outside allowed patterns.")
          (touched_breaches rules ps))

  unfoldable pub artifact_breaches : List String → List Breach
  unfolding note
  artifact_breaches [] = []
  artifact_breaches (p ∷ ps) =
      note (not (paths.exists p))
        ("required_artifact_missing", p, "A required artifact is missing.") (artifact_breaches ps)

  unfoldable pub marker_breaches : List String → List String → List Breach
  unfolding note any
  marker_breaches after [] = []
  marker_breaches after (m ∷ ms) =
      note (any (λ path. paths.fnmatch path m) after)
        ("hidden_asset_leak", m, "Hidden verification assets leaked into the workspace.")
        (marker_breaches after ms)

  unfoldable pub config_breaches : List String → List Breach
  unfolding note elem
  config_breaches [] = []
  config_breaches (p ∷ ps) =
      note
        (elem (paths.name p)
          ("pytest.ini" ∷ "tox.ini" ∷ "noxfile.py" ∷ "conftest.py" ∷ ".coveragerc" ∷ []))
        ("test_configuration_weakened", p, "A test configuration file was modified.")
        (note
          (elem (paths.name p)
            ("pyproject.toml" ∷ "setup.py" ∷ "setup.cfg" ∷ "requirements.txt" ∷ []))
          ("project_config_modified", p, "Project configuration modification is not allowed.")
          (config_breaches ps))

  abbrev size_of : Option FileManifestEntry → ℕ
  size_of none = 0
  size_of (some e) = e.size

  -- `_looks_like_test`
  abbrev pub looks_like_test : String → Bool
  looks_like_test path =
      starts_with "test_" (paths.lower (paths.name path))
      || paths.ends_with "_test.py" (paths.lower (paths.name path))

  abbrev pub in_directory : String → String → Bool
  in_directory path root = str_eq path root || starts_with (append (paths.rstrip root) "/") path

  -- The loop over the paths that were added, each of which has an entry.
  unfoldable pub added_breaches : IntegrityRules → WorkspaceManifest → List String → List Breach
  unfolding note any entry starts_with
  added_breaches rules candidate [] = []
  added_breaches rules candidate (p ∷ ps) =
      note (ltb rules.max_binary_file_bytes (size_of (entry candidate p)) && paths.looks_binary p)
        ("large_binary_added", p, "An unexpectedly large binary file was added.")
        (note (looks_like_test p && not (any (in_directory p) rules.allowed_test_directories))
          ("test_outside_allowed_directory", p, "A generated test is outside allowed directories.")
          (added_breaches rules candidate ps))

  unfoldable pub deletion_breaches : IntegrityRules → List String → List Breach
  unfolding note
  deletion_breaches rules deleted =
      note (ltb rules.max_deleted_files (length deleted))
        ("excessive_deletion", "", "Too many files were deleted.") []

  -- The last two loops.
  unfoldable pub file_breaches :
      IntegrityRules → WorkspaceManifest → (modified added : List String) → List Breach
  unfolding config_breaches added_breaches sorted
  file_breaches rules candidate modified added =
      (if rules.allow_project_config_changes then [] else config_breaches modified)
      ++ added_breaches rules candidate (sorted added)

  unfoldable pub breaches : WorkspaceManifest → WorkspaceManifest → IntegrityRules → List Breach
  unfolding changed without_paths union modified_breaches touched_breaches artifact_breaches
      marker_breaches deletion_breaches file_breaches
  breaches baseline candidate rules =
      let c = changed baseline candidate in
      let deleted = without_paths baseline candidate in
      let added = without_paths candidate baseline in
      modified_breaches rules (union c deleted)
      ++ (touched_breaches rules (union c (added ++ deleted))
          ++ (deletion_breaches rules deleted
              ++ (artifact_breaches rules.required_artifacts
                  ++ (marker_breaches (keys candidate) rules.hidden_asset_markers
                      ++ file_breaches rules candidate (union c deleted) added))))

-- `_violation`, with the identifier that its constructor makes.
abbrev pub violation : String → Breach → IntegrityViolation
violation violation_id (category, path, summary) = record {
  violation_id = violation_id;
  category = category;
  path = path;
  description = summary;
  severity = Severity.error;
  evidence = [];
  agent_visible_summary = summary;
}

unfoldable pub violations : (ids : ℕ → String) → List Breach → List IntegrityViolation
violations ids [] = []
violations ids (b ∷ bs) = violation (ids 0) b ∷ violations (λ n. ids (suc n)) bs

-- `IntegrityValidator.validate`
unfoldable pub validate :
    Paths
    → (ids : ℕ → String) → WorkspaceManifest
    → WorkspaceManifest
    → IntegrityRules
    → List IntegrityViolation
unfolding violations breaches
validate paths ids baseline candidate rules =
    violations ids (breaches paths baseline candidate rules)
