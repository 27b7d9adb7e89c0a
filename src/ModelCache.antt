-- ===== src/ModelCache.antt =====
-- lmrs/model_cache.py: the models that are on disk, in the layout of the hub cache.
pub mod Layout
pub mod Names
pub mod Paths
pub mod Snapshots
pub mod Scan
pub mod Commands
pub mod Deletion
pub mod Inspection
pub mod Complete
pub mod Reported
pub mod Deleted
pub mod Effects
pub mod Loading
use vvz_lmrs.Prelude.{ℕ, String, Bool, Option, List}
use vvz_lmrs.Prelude.Int.{ℤ}
use vvz_lmrs.Prelude.Dict.{Dict}
use vvz_lmrs.Prelude.Value.{Value}

pub record CachedModelRecord : Type 0 where
  pub model_name : String
  pub runtime_backend : String
  pub model_path : String
  pub quantization_profile : String
  pub declared_context_window : ℤ
  pub tokenizer_profile : String
  pub checksum_or_revision : String
  pub size_bytes : ℕ
  pub downloaded_at : String
  pub compatibility_flags : Dict Bool
  pub cache_status : String
  pub readiness_marker_path : Option String
  pub metadata : Dict Value

pub record CacheCommandResult : Type 0 where
  pub command : String
  pub model_name : String
  pub status : String
  pub success : Bool
  pub reason_code : Option String
  pub record_ : Option CachedModelRecord
  pub metadata : Dict Value

-- Where a snapshot entry leads: the resolved path, what stands there, and its size if `stat` works.
pub record Target : Type 0 where
  pub path : String
  pub is_file : Bool
  pub size : Option ℕ

-- A file or symbolic link below a snapshot; a broken link has no target.
pub record Entry : Type 0 where
  pub name : String
  pub suffix : String
  pub target : Option Target

-- A snapshot directory: its entries in the order of their paths, the JSON documents among them
-- that parse, and the time of the directory in ISO form, if `stat` works.
pub record Snapshot : Type 0 where
  pub entries : List Entry
  pub documents : Dict Value
  pub modified : Option String

-- A child of `refs`.
pub data Ref : Type 0 where
  file : String → Ref
  unreadable directory : Ref

-- A `models--` directory; a missing subdirectory is `none`. The children of `refs` and the
-- directories of `snapshots` are in the order of their names.
pub record Repository : Type 0 where
  pub refs : Option (Dict Ref)
  pub snapshots : Option (Dict Snapshot)
  pub blobs : Option (List String)

-- The `.lmrs` directory of one model: whether the marker is there, and `metadata.json`, which is
-- empty where it is missing or invalid.
pub record StateDirectory : Type 0 where
  pub has_marker : Bool
  pub stored : Dict Value

-- What is on disk, by the names of the directories.
pub record Disk : Type 0 where
  pub repositories : Dict Repository
  pub states : Dict StateDirectory

pub record DiskModelCache : Type 0 where
  pub cache_root : String
  pub records : List CachedModelRecord
  pub runtime_backend : String

-- What `shutil.rmtree` does: it removes the directory, or raises and leaves some disk behind.
pub data Removal : Type 0 where
  removed : Removal
  broken_off : String → Disk → Removal

-- What the hub client does: it cannot be imported, it raises, or it returns the downloaded path.
pub data Download : Type 0 where
  unavailable : String → Download
  failed : String → String → Disk → Download
  downloaded : String → Disk → Download

-- The calls on paths, the file system and the hub; a write that fails names its error and writes nothing.
pub record Host : Type 0 where
  pub base_name : String → String
  pub join : String → String → String
  pub is_dir : String → Bool
  pub show : Value → String
  pub write_text : String → Disk → Option String
  pub rmtree : String → Disk → Removal
  pub snapshot_download : String → Disk → Download
