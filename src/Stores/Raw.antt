-- ===== src/Stores/Raw.antt =====
-- `LocalRawStore` (raw_store.py). A directory below the root is named by the source, the request's
-- instant and the payload's checksum; the store is the directories that are published, with their two files.
-- SHA-256 and gzip are parameters; JSON and ISO timestamps give back what they were given.
pub mod Laws
pub mod RoundTrip
use signal_observatory.Prelude.{
  ℕ, Bool, true, false, not, ◌&&◌, ◌||◌, Option, none, some, List, [], ◌∷◌, ◌++◌, String, str_eq,
  if◌then◌else◌, find, length, ◌==◌, is_some, Result, ok, err, ◌>>=◌, ◌>>◌, raise_if,
}
use signal_observatory.Errors.{Error, not_found, bad_gzip, checksum_mismatch, length_mismatch}
use signal_observatory.Clock.{Datetime, utc}
use signal_observatory.Text.{Text, text_eq}
use signal_observatory.Stores.{validate_source}

abbrev pub Bytes : Type 0
Bytes = List ℕ

pub record Directory : Type 0 where
  pub source : Text
  pub timestamp : ℕ
  pub checksum : String

-- The content of `metadata.json`; also what a `RawRecord` has besides its directory.
pub record RawMetadata : Type 0 where
  pub source : Text
  pub request_timestamp : ℕ
  pub collector_version : String
  pub schema_version : String
  pub sha256 : String
  pub uncompressed_bytes : ℕ
  pub source_metadata : String

pub record RawRecord : Type 0 where
  pub directory : Directory
  pub metadata : RawMetadata

pub record Published : Type 0 where
  pub directory : Directory
  pub payload_gz : Bytes
  pub metadata : RawMetadata

-- What an input or output call of `write` raises: before the rename, or after it.
pub data Fault : Type 0 where
  no_fault : Fault
  before_publish after_publish : Error → Fault

abbrev pub same_directory : Directory → Directory → Bool
same_directory a b =
    text_eq a.source b.source && (a.timestamp == b.timestamp && str_eq a.checksum b.checksum)

abbrev pub lookup : Directory → List Published → Option Published
lookup d store = find (λ p. same_directory p.directory d) store

unfoldable pub load : List Published → Directory → Result Error RawRecord
load store d = elim (lookup d store) [
  | none ↦ err not_found
  | some p ↦ ok (record { directory = d; metadata = p.metadata })
]

module _ (sha256 : Bytes → String) (gzip : Bytes → Bytes) (gunzip : Bytes → Option Bytes) where
  -- The checks on what the file holds.
  abbrev pub checked : RawMetadata → Bytes → Result Error Bytes
  checked metadata payload = do
    raise_if (not (str_eq (sha256 payload) metadata.sha256)) checksum_mismatch
    raise_if (not (length payload == metadata.uncompressed_bytes)) length_mismatch
    ok payload

  unfoldable pub read_file : RawMetadata → Bytes → Result Error Bytes
  read_file metadata payload_gz = elim (gunzip payload_gz) [
    | none ↦ err bad_gzip
    | some payload ↦ checked metadata payload
  ]

  unfoldable pub read : List Published → RawRecord → Result Error Bytes
  unfolding read_file
  read store r = elim (lookup r.directory store) [
    | none ↦ err not_found
    | some p ↦ read_file r.metadata p.payload_gz
  ]

  -- `load` and `read` of what is published.
  unfoldable pub load_checked : List Published → Directory → Result Error RawRecord
  unfolding load read
  load_checked store d = do r ← load store d; payload ← read store r; ok r

  abbrev pub published : Directory → Bytes → RawMetadata → Published
  published d payload metadata = record {
    directory = d;
    payload_gz = gzip payload;
    metadata = metadata;
  }

  -- The part of `write` that adds a directory.
  unfoldable pub publish :
      Fault
      → Directory
      → Bytes
      → RawMetadata
      → List Published
      → List Published × Result Error RawRecord
  unfolding load_checked
  publish (before_publish e) d payload metadata store = (store, err e)
  publish (after_publish e) d payload metadata store =
      (store ++ (published d payload metadata ∷ []), err e)
  publish no_fault d payload metadata store =
      let store' = store ++ (published d payload metadata ∷ []) in (store', load_checked store' d)

  abbrev pub directory_for : Text → Bytes → ℕ → Directory
  directory_for source payload timestamp = record {
    source = source;
    timestamp = timestamp;
    checksum = sha256 payload;
  }

  abbrev pub metadata_for : Text → Bytes → ℕ → String → String → String → RawMetadata
  metadata_for source payload timestamp collector_version schema_version source_metadata = record {
    source = source;
    request_timestamp = timestamp;
    collector_version = collector_version;
    schema_version = schema_version;
    sha256 = sha256 payload;
    uncompressed_bytes = length payload;
    source_metadata = source_metadata;
  }

  unfoldable pub write_valid :
      Fault
      → Text
      → Bytes
      → ℕ
      → String
      → String
      → String
      → List Published
      → List Published × Result Error RawRecord
  unfolding publish
  write_valid fault source payload timestamp collector_version schema_version source_metadata
        store =
      let d = directory_for source payload timestamp in
      let metadata =
        metadata_for source payload timestamp collector_version schema_version source_metadata in
      if is_some (lookup d store)
      then (store, load_checked store d)
      else publish fault d payload metadata store

  -- An error before the store is touched.
  abbrev pub continued :
      List Published
      → Result Error ℕ
      → (ℕ → List Published × Result Error RawRecord)
      → List Published × Result Error RawRecord
  continued store (err e) next = (store, err e)
  continued store (ok timestamp) next = next timestamp

  unfoldable pub write :
      Fault
      → Text
      → Bytes
      → Datetime
      → String
      → String
      → String
      → List Published
      → List Published × Result Error RawRecord
  unfolding write_valid
  write fault source payload request_timestamp collector_version schema_version source_metadata
        store =
      continued store (validate_source source >> utc request_timestamp) (λ timestamp.
        write_valid fault source payload timestamp collector_version schema_version source_metadata
          store)
