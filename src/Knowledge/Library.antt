-- ===== src/Knowledge/Library.antt =====
-- What src/longrun_agent/knowledge takes from Python: floating-point numbers, whose only use here is
-- a comparison, string methods, regular expressions, and the digests of JSON texts.
use long_running_coding_agen.Prelude.{String, Bool, List}
use long_running_coding_agen.Knowledge.Schema.{SkillStep}

pub record Library : Type 1 where
  pub Float : Type 0
  pub less : Float → Float → Bool
  -- `text.lower()` and `text.split()`
  pub lower : String → String
  pub words : String → List String
  -- `re.search(pattern, text) is not None` and `re.findall(pattern, text)`
  pub search : (pattern text : String) → Bool
  pub findall : (pattern text : String) → List String
  -- the SHA-256 digests in `skill_derivation_key` and `skill_semantic_signature`
  pub digest_ids : List String → String
  pub digest_skill :
      (title summary : String)
      → (procedure : List SkillStep) → (verification : List String) → String
