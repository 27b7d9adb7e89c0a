-- ===== src/Examples/Caches.antt =====
-- Examples of the theorems on the disk cache, the configuration and the external cache.
use vvz_lmrs.Prelude.{
  ℕ, String, ◌≡◌, ◌↔◌, refl, true, false, none, some, Option, Exception, List, [], ◌∷◌, ok,
}
use vvz_lmrs.Prelude.Int.{pos}
use vvz_lmrs.Prelude.Dict.{lookup}
use vvz_lmrs.Prelude.Value.{Value, Fields}
use vvz_lmrs.ModelCache.{
  Snapshot, Ref, Repository, Disk, DiskModelCache, Host, removed, unavailable,
}
use vvz_lmrs.ModelCache.Layout.{repo_directory_name, model_name_from_repo_directory, strip_slashes}
use vvz_lmrs.ModelCache.Names.{is_unambiguous, name-read_back}
use vvz_lmrs.ModelCache.Scan.{record_of}
use vvz_lmrs.ModelCache.Commands.{status, preload}
use vvz_lmrs.ModelCache.Inspection.{check_integrity}
use vvz_lmrs.ModelCache.Deletion.{delete}
use vvz_lmrs.ModelCache.Reported.{IsCached, status_success_iff, integrity_iff}
use vvz_lmrs.ModelCache.Complete.{IsReady}
use vvz_lmrs.ModelCache.Effects.{preload-status}
use vvz_lmrs.ModelCache.Deleted.{delete-status}
use vvz_lmrs.Lifecycle.Memory.{load_model}
use vvz_lmrs.ModelCache.Loading.{status_in, load-IsCached}
use vvz_lmrs.Configuration.{KvCacheProfile, ModelProfile, RuntimeConfiguration}
use vvz_lmrs.Configuration.KvCache.{IsSizing, derive_kv_cache_profile, derive-IsSizing}
use vvz_lmrs.Configuration.Validation.{IsValid, validate_runtime_configuration, validate_iff}
use vvz_lmrs.LmCache.{LmCacheStoragePolicy}
use vvz_lmrs.LmCache.Disk.{Node, is_dir}
use vvz_lmrs.Examples.Data.{lifecycle_of}

abbrev host : Host
host = record {
  base_name = λ path. path;
  join = λ directory name. name;
  is_dir = λ path. true;
  show = λ _. "model.safetensors";
  write_text = λ _ _. none;
  rmtree = λ _ _. removed;
  snapshot_download = λ _ _. unavailable "no hub";
}

abbrev cache : DiskModelCache
cache = record { cache_root = "/cache"; records = []; runtime_backend = "vllm" }

abbrev snapshot : Snapshot
snapshot = record {
  entries =
      record {
        name = "model.safetensors";
        suffix = ".safetensors";
        target = some (record { path = "blob"; is_file = true; size = some 7 });
      }
      ∷ [];
  documents = [];
  modified = none;
}

abbrev repository : Repository
repository = record {
  refs = some (("main", Ref.file "r1") ∷ []);
  snapshots = some (("r1", snapshot) ∷ []);
  blobs = some ("blob" ∷ []);
}

abbrev disk : Disk
disk = record { repositories = ("models--qwen", repository) ∷ []; states = [] }

status_success_iff_example :
    ((status host cache "qwen" disk).success ≡ true)
    ↔ IsCached host cache "qwen" (lookup (repo_directory_name "qwen") disk.repositories)
status_success_iff_example = status_success_iff host cache "qwen" disk

abbrev model_name : String
model_name = "Qwen/Qwen3-8B"

name-read_back_example :
    model_name_from_repo_directory (repo_directory_name model_name) ≡ model_name
unfolding strip_slashes is_unambiguous
name-read_back_example = name-read_back model_name refl refl

integrity_iff_example :
    ((check_integrity host cache "qwen" disk).success ≡ true ↔ IsReady host cache repository)
    × ((lookup "problems" (check_integrity host cache "qwen" disk).metadata
          ≡ some (Value.dict Fields.end))
        ↔ IsReady host cache repository)
unfolding lookup repo_directory_name
integrity_iff_example = integrity_iff host cache "qwen" disk repository refl

preload-status_example :
    (status host cache "qwen" ((preload host cache "qwen" disk).1)).success ≡ true
unfolding preload lookup
preload-status_example = preload-status host cache "qwen" disk refl

delete-status_example :
    (record_of host ((delete host cache "qwen" disk).1) "qwen" ((delete host cache "qwen" disk).2)
      ≡ none)
    × ((status host
          ((delete host cache "qwen" disk).1)
          "qwen"
          ((delete host cache "qwen" disk).2)).status
        ≡ "not_cached")
unfolding delete lookup
delete-status_example = delete-status host cache "qwen" disk refl

load-IsCached_example :
    IsCached host cache "qwen" (lookup (repo_directory_name "qwen") disk.repositories)
unfolding load_model status_in lookup
load-IsCached_example =
    load-IsCached {W = ℕ} host cache none none (λ _. "12:00") "qwen" (lifecycle_of none) disk 0 refl
      refl

abbrev kv : KvCacheProfile
kv = record {
  layers = pos 36;
  kv_heads = pos 8;
  head_dim = pos 128;
  kv_element_bytes = pos 2;
  declared_context_window = pos 4096;
  runtime_kv_dtype = "bfloat16";
  quantization_profile = none;
}

abbrev model_profile : ModelProfile
model_profile = record {
  model_name = "qwen";
  runtime_backend = "vllm";
  model_path_or_endpoint = "http://127.0.0.1:8000";
  declared_context_window = pos 4096;
  tokenizer_profile = "qwen";
  load_policy = "on_demand";
  kv_cache_profile = kv;
  concurrency_policy = [];
  options = [];
}

abbrev configuration : RuntimeConfiguration
configuration = record {
  hardware_profile = record {
    gpu_count = pos 1;
    total_vram_bytes = pos 24;
    total_ram_bytes = pos 128;
    gpu_model = none;
    metadata = [];
  };
  model_profiles = ("qwen", model_profile) ∷ [];
  default_model_name = "qwen";
  resident_services = [];
  safety_margin_bytes = pos 1;
  runtime_reserve_bytes = pos 0;
  queue_policy = "largest_fit";
  queue_limits = [];
}

validate_iff_example :
    (validate_runtime_configuration configuration ≡ ok configuration)
    ↔ (IsValid configuration × (configuration ≡ configuration))
validate_iff_example = validate_iff configuration configuration

abbrev config_json : Fields
config_json = Fields.field "num_hidden_layers" (Value.int (pos 36)) (
    Fields.field "num_attention_heads" (Value.int (pos 32)) (
      Fields.field "hidden_size" (Value.int (pos 4096))
        (Fields.field "max_position_embeddings" (Value.int (pos 4096)) Fields.end)))

derive-IsSizing_example :
    IsSizing
      (λ s. s)
      (λ _. "bfloat16")
      (derive_kv_cache_profile (λ s. s) (λ _. "bfloat16") config_json none)
derive-IsSizing_example = derive-IsSizing (λ s. s) (λ _. "bfloat16") config_json none

abbrev policy : LmCacheStoragePolicy
policy = record {
  enabled = true;
  storage_tiers = "ram" ∷ "disk" ∷ [];
  cache_storage_path = some "/tier";
  namespace_binding = none;
  session_binding = none;
  cpu_cache_limit_bytes = none;
  disk_cache_limit_bytes = none;
  eviction_policy = none;
  compatibility_mode = none;
  metadata = [];
}

-- A disk with two namespaces below the storage root, and a file beside it.
abbrev disk_nodes : List Node
disk_nodes =
    record { path = "tier" ∷ "n1" ∷ "s1" ∷ "a.kv" ∷ []; is_directory = false }
    ∷ record { path = "tier" ∷ "n2" ∷ "s1" ∷ "b.kv" ∷ []; is_directory = false }
    ∷ record { path = "tier" ∷ "n1" ∷ "s2" ∷ "c.kv" ∷ []; is_directory = false }
    ∷ record { path = "etc" ∷ "hosts" ∷ []; is_directory = false }
    ∷ []

-- Removals that go through.
abbrev never : List String → List Node → Option (Exception × List Node)
never target nodes = none
