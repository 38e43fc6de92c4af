-- ===== src/Verification/Integrity/Clean.antt =====
-- What it means that `IntegrityValidator.validate` reports nothing.
use long_running_coding_agen.Prelude.{
  elem-sorted, ℕ, ◌≤◌, String, ◌≡◌, refl, ◌∙◌, inl, inr, Bool, true, false, not, ◌&&◌, ◌||◌, List,
  [], ◌∷◌, ◌++◌, arith, str_eq, str_eq_iff, All, any, select, elem, to_set, length, is_empty,
  note-quiet, append-quiet, elem-append, Bool-cases,
}
use long_running_coding_agen.Verification.Integrity.{
  deletion_breaches, file_breaches, WorkspaceManifest, IntegrityRules, Paths, Breach, keys, entry,
  same_digest, changed, without_paths, union, matches, modified_breaches, touched_breaches,
  artifact_breaches, marker_breaches, breaches, violations, validate,
}

elem-to_set : (x : String) (ys : List String) → elem x ys ≡ true → elem x (to_set ys) ≡ true
unfolding elem to_set
elem-to_set x [] h = h
elem-to_set x (y ∷ ys) h = elim (Bool-cases (elem y ys)) [
  | inr f ↦ rw f (elim (Bool-cases (str_eq y x)) [
    | inl e ↦ ground (arith, e)
    | inr e ↦ rw e (elem-to_set x ys (rw e at h))
  ])
  | inl f ↦ rw f (
      elem-to_set x ys (elim (Bool-cases (str_eq y x)) [
        | inl e ↦ rw (← (str_eq_iff y x).0 e) f
        | inr e ↦ rw e at h
      ]))
]

elem-select :
    (p : String → Bool) (x : String) (ys : List String)
    → elem x ys ≡ true
    → p x ≡ true
    → elem x (select p ys) ≡ true
unfolding elem select
elem-select p x [] h k = h
elem-select p x (y ∷ ys) h k = elim (Bool-cases (str_eq y x)) [
  | inl e ↦ let q : p y ≡ true = rw ((str_eq_iff y x).0 e) k in rw q (ground (arith, e))
  | inr e ↦
      let r = elem-select p x ys (rw e at h) k in
      elim (Bool-cases (p y)) [ inl f ↦ rw f (ground (arith, r)) | inr f ↦ rw f r ]
]

elem-union :
    (x : String) (a b : List String) → (elem x a || elem x b) ≡ true → elem x (union a b) ≡ true
unfolding union
elem-union x a b h =
    elem-sorted x (to_set (a ++ b)) ∙ elem-to_set x (a ++ b) (elem-append x a b ∙ h)

-- What holds of all elements of a list of texts holds of each.
All-elem : (P : String → Type 0) (x : String) (ys : List String) → All P ys → elem x ys ≡ true → P x
unfolding elem
All-elem P x [] a h = absurd (cc)
All-elem P x (y ∷ ys) a h = elim (Bool-cases (str_eq y x)) [
  | inl e ↦ rw (← (str_eq_iff y x).0 e) a.0
  | inr e ↦ All-elem P x ys a.1 (rw e at h)
]

str_eq_refl : (x : String) → str_eq x x ≡ true
str_eq_refl x = (str_eq_iff x x).1 refl

-- What holds of each element holds of all.
elem-All :
    (P : String → Type 0) (ys : List String) → ((x : String) → elem x ys ≡ true → P x) → All P ys
unfolding elem
elem-All P [] h = tt
elem-All P (y ∷ ys) h =
    (h y (ground (arith, str_eq_refl y)), elem-All P ys (λ x e. h x (ground (arith, e))))

elem-select-1 :
    (p : String → Bool) (x : String) (ys : List String)
    → elem x (select p ys) ≡ true
    → (elem x ys ≡ true) × (p x ≡ true)
unfolding elem select
elem-select-1 p x [] h = absurd (cc)
elem-select-1 p x (y ∷ ys) h = elim (Bool-cases (p y)) [
  | inl f ↦ elim (Bool-cases (str_eq y x)) [
    | inl e ↦ (ground (arith, e), rw (← (str_eq_iff y x).0 e) f)
    | inr e ↦ let (a, b) = elem-select-1 p x ys (rw e at (rw f at h)) in (ground (arith, a), b)
  ]
  | inr f ↦ let (a, b) = elem-select-1 p x ys (rw f at h) in (ground (arith, a), b)
]

-- The paths of the baseline whose file is gone or has another digest.
abbrev pub modified : WorkspaceManifest → WorkspaceManifest → List String
modified baseline candidate =
    select (λ p. not (same_digest (entry baseline p) (entry candidate p))) (keys baseline)

modified-elem :
    (b c : WorkspaceManifest) (p : String)
    → elem p (modified b c) ≡ true
    → (elem p (changed b c) || elem p (without_paths b c)) ≡ true
unfolding changed without_paths
modified-elem b c p h =
    let (k, d) = elem-select-1 (λ x. not (same_digest (entry b x) (entry c x))) p (keys b) h in
    elim (Bool-cases (elem p (keys c))) [
      | inl e ↦
          let q =
            elem-select (λ x. elem x (keys c) && not (same_digest (entry b x) (entry c x))) p
              (keys b) k (rw (e, d) refl) in
          ground (arith, q)
      | inr e ↦
          let q = elem-select (λ x. not (elem x (keys c))) p (keys b) k (rw e refl) in
          ground (arith, q)
    ]

module _ (paths : Paths) (rules : IntegrityRules) where
  -- A path that was changed or deleted, and one that was touched at all.
  abbrev IsUntouchable : String → Type 0
  IsUntouchable p =
      (matches paths p rules.protected_paths ≡ false)
      × (matches paths p rules.trusted_test_patterns ≡ false)
      × (matches paths p rules.contract_paths ≡ false)

  abbrev IsAllowed : String → Type 0
  IsAllowed p =
      (matches paths p rules.forbidden_change_patterns ≡ false)
      × ((is_empty rules.allowed_change_patterns || matches paths p rules.allowed_change_patterns)
          ≡ true)

  modified_breaches-none :
      (ps : List String) → modified_breaches paths rules ps ≡ [] → All IsUntouchable ps
  unfolding modified_breaches
  modified_breaches-none [] h = tt
  modified_breaches-none (p ∷ ps) h =
      let (a, h1) = note-quiet _ _ _ h in
      let (b, h2) = note-quiet _ _ _ h1 in
      let (c, h3) = note-quiet _ _ _ h2 in ((a, b, c), modified_breaches-none ps h3)

  touched_breaches-none :
      (ps : List String) → touched_breaches paths rules ps ≡ [] → All IsAllowed ps
  unfolding touched_breaches
  touched_breaches-none [] h = tt
  touched_breaches-none (p ∷ ps) h =
      let (a, h1) = note-quiet _ _ _ h in
      let (b, h2) = note-quiet _ _ _ h1 in ((a, ground arith), touched_breaches-none ps h2)

  deletion_breaches-none :
      (ps : List String)
      → deletion_breaches paths rules ps ≡ []
      → length ps ≤ rules.max_deleted_files
  unfolding deletion_breaches
  deletion_breaches-none ps h = ground arith

  artifact_breaches-none :
      (ps : List String) → artifact_breaches paths ps ≡ [] → All (λ p. paths.exists p ≡ true) ps
  unfolding artifact_breaches
  artifact_breaches-none [] h = tt
  artifact_breaches-none (p ∷ ps) h =
      let (a, h1) = note-quiet _ _ _ h in (ground arith, artifact_breaches-none ps h1)

  marker_breaches-none :
      (after ms : List String)
      → marker_breaches paths after ms ≡ []
      → All (λ m. any (λ p. paths.fnmatch p m) after ≡ false) ms
  unfolding marker_breaches
  marker_breaches-none after [] h = tt
  marker_breaches-none after (m ∷ ms) h =
      let (a, h1) = note-quiet _ _ _ h in (a, marker_breaches-none after ms h1)

  violations-none : (ids : ℕ → String) (bs : List Breach) → violations ids bs ≡ [] → bs ≡ []
  unfolding violations
  violations-none ids [] h = refl
  violations-none ids (b ∷ bs) h = cc

  -- A candidate workspace that keeps the rules against its baseline.
  pub record IsClean (baseline candidate : WorkspaceManifest) : Type 0 where
    pub kept : All (λ p. IsUntouchable p × IsAllowed p) (modified baseline candidate)
    pub added : All IsAllowed (without_paths candidate baseline)
    pub deletions : length (without_paths baseline candidate) ≤ rules.max_deleted_files
    pub artifacts : All (λ p. paths.exists p ≡ true) rules.required_artifacts
    pub markers :
        All (λ m. any (λ p. paths.fnmatch p m) (keys candidate) ≡ false) rules.hidden_asset_markers

  breaches-IsClean : (b c : WorkspaceManifest) → breaches paths b c rules ≡ [] → IsClean b c
  unfolding breaches
  breaches-IsClean b c h =
      let ch = changed b c in
      let de = without_paths b c in
      let ad = without_paths c b in
      let (h1, k1) = append-quiet (modified_breaches paths rules (union ch de)) _ h in
      let (h2, k2) = append-quiet (touched_breaches paths rules (union ch (ad ++ de))) _ k1 in
      let (h3, k3) = append-quiet (deletion_breaches paths rules de) _ k2 in
      let (h4, k4) = append-quiet (artifact_breaches paths rules.required_artifacts) _ k3 in
      let (h5, _) =
        append-quiet (marker_breaches paths (keys c) rules.hidden_asset_markers)
          (file_breaches paths rules c (union ch de) ad) k4 in
      let untouchable = modified_breaches-none (union ch de) h1 in
      let allowed = touched_breaches-none (union ch (ad ++ de)) h2 in
      record {
        kept =
            elem-All (λ p. IsUntouchable p × IsAllowed p) (modified b c)
              (λ p e.
                let m = modified-elem b c p e in
                (
                  All-elem IsUntouchable p (union ch de) untouchable (elem-union p ch de m),
                  All-elem IsAllowed p (union ch (ad ++ de)) allowed
                      (elem-union p ch (ad ++ de) (ground (arith, m, elem-append p ad de))),
                ));
        added = elem-All IsAllowed ad (λ p e.
            All-elem IsAllowed p (union ch (ad ++ de)) allowed
              (elem-union p ch (ad ++ de) (ground (arith, e, elem-append p ad de))));
        deletions = deletion_breaches-none de h3;
        artifacts = artifact_breaches-none rules.required_artifacts h4;
        markers = marker_breaches-none (keys c) rules.hidden_asset_markers h5;
      }

  -- Where the validator reports no violation, each file of the baseline that is gone or has another
  -- digest is neither protected, nor a trusted test, nor a contract, and is where changes are
  -- allowed, as each added file is, no more files are deleted than the rules allow, each required
  -- artifact exists, and no path of the candidate matches a marker of hidden assets.
  pub validate-IsClean :
      (ids : ℕ → String) (baseline candidate : WorkspaceManifest)
      → validate paths ids baseline candidate rules ≡ []
      → IsClean baseline candidate
  unfolding validate
  validate-IsClean ids b c h =
      breaches-IsClean b c (violations-none ids (breaches paths b c rules) h)
