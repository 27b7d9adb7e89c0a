-- ===== src/ModelCache/Paths.antt =====
-- lmrs/model_cache.py: where the directories of the cache stand.
use vvz_lmrs.Prelude.{String, ◌==◌, if◌then◌else◌}
use vvz_lmrs.ModelCache.{DiskModelCache, Host}
use vvz_lmrs.ModelCache.Layout.{repo_directory_name}

unfoldable pub hub_cache_root : Host → String → String
hub_cache_root host root =
    if host.base_name root == "hub"
    then root
    else if host.is_dir (host.join root "hub")
    then host.join root "hub"
    else root

module _ (host : Host) (cache : DiskModelCache) where
  -- `_hub_root`
  unfoldable pub hub_root : String
  unfolding hub_cache_root
  hub_root = hub_cache_root host cache.cache_root

  -- the directory of a repository
  unfoldable pub repository_path : String → String
  unfolding hub_root
  repository_path key = host.join hub_root key

  unfoldable pub snapshot_path : String → String → String
  unfolding repository_path
  snapshot_path key revision = host.join (host.join (repository_path key) "snapshots") revision

  -- `_state_directory`
  unfoldable pub state_directory : String → String
  unfolding repo_directory_name
  state_directory model_name =
      host.join (host.join cache.cache_root ".lmrs") (repo_directory_name model_name)

  -- `_readiness_marker`
  unfoldable pub readiness_marker : String → String
  unfolding state_directory
  readiness_marker model_name = host.join (state_directory model_name) "ready.json"

  -- the path of the stored metadata
  unfoldable pub metadata_path : String → String
  unfolding state_directory
  metadata_path model_name = host.join (state_directory model_name) "metadata.json"
