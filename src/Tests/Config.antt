-- ===== src/Tests/Config.antt =====
-- The theorems on the configuration at concrete inputs.
use godeepwiki.Common.{◌≡◌, refl, true, false, [], ◌∷◌, none, some}
use godeepwiki.Config.Patch.{
  null, value, object, Members, no_members, member, get, members_at, merge_patch,
}
use godeepwiki.Config.Patch.Merge.{asked, merge_patch_lem}
use godeepwiki.Config.Manager.{Settings, Decoder, ConfigManager, ApplyEnv, no_secrets, apply}
use godeepwiki.Config.Manager.Applying.{Outcome, apply_lem}

-- {"llm": {"model": "b", "base_url": null}}
abbrev model_patch : Members
model_patch =
    member "llm" (object (member "model" (value "b") (member "base_url" null no_members)))
      no_members

abbrev two_sections : Members
two_sections = member "embedding" (object (member "provider" (value "p") no_members)) (
    member "llm" (object (member "api_key" (value "k") (member "model" (value "a") no_members)))
      no_members)

merge_patch_lem_example :
    get "llm" (merge_patch model_patch two_sections)
    ≡ asked (get "llm" model_patch) (get "llm" two_sections) (members_at "llm" two_sections)
unfolding get
merge_patch_lem_example = merge_patch_lem "llm" model_patch two_sections (refl, tt)

abbrev plain_decoder : Decoder
plain_decoder = record {
  decode = λ m. m;
  limits = λ m. record { chunk_size = 500; chunk_overlap = 50; rps = 10; burst = 20 };
  embedding = λ m. record { provider = "p"; model = "m"; base_url = "u" };
  dimensions = λ m. 3;
  struct_issues = λ m. [];
}

abbrev base_settings : Settings
base_settings = record {
  sections = two_sections;
  secrets = record no_secrets { auth = "key_1" ∷ []; postgres_dsn = "dsn" };
}

abbrev first_manager : ConfigManager
first_manager = record {
  base = base_settings;
  snapshot = base_settings;
  version = 1;
  etcd = record { overrides = ("llm.model", value "b") ∷ []; version = some 3; audits = [] };
  notified = [];
}

abbrev apply_env : ApplyEnv
apply_env = record {
  healthy = true;
  txn_ok = true;
  can_probe = false;
  chunks = none;
  prober_ok = false;
  probe = none;
}

apply_lem_example :
    Outcome plain_decoder
      (merge_patch model_patch two_sections)
      first_manager
      (apply plain_decoder apply_env "admin" (some model_patch) first_manager)
apply_lem_example =
    apply_lem plain_decoder apply_env "admin" "llm"
      (object (member "model" (value "b") (member "base_url" null no_members))) no_members
      first_manager
