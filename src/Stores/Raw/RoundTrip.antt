-- ===== src/Stores/Raw/RoundTrip.antt =====
-- What `write` returns, and what `read` then gives.
use signal_observatory.Prelude.{
  ℕ, true, Option, none, some, List, [], ◌∷◌, ◌++◌, String, eq_iff, ◌≡◌, refl, ap, ◌∙◌, arith,
  Option-cases, inl, inr, All, Result, ok,
}
use signal_observatory.Errors.{Error}
use signal_observatory.Clock.{aware}
use signal_observatory.Text.{Text}
use signal_observatory.Stores.{is_source}
use signal_observatory.Stores.Raw.{
  Bytes, Directory, RawMetadata, RawRecord, Published, no_fault, lookup, load_checked, read,
  published, publish, write_valid, write, directory_for, metadata_for,
}
use signal_observatory.Stores.Raw.Laws.{
  IsIntact, same_directory_self, lookup-some, lookup_All, lookup_new, load_intact,
}

module _ (sha256 : Bytes → String) (gzip : Bytes → Bytes) (gunzip : Bytes → Option Bytes)
    (source : Text) (payload : Bytes) (timestamp : ℕ)
    (collector_version schema_version source_metadata : String) (store : List Published) where
  abbrev here : Directory
  here = directory_for sha256 gzip gunzip source payload timestamp

  abbrev metadata : RawMetadata
  metadata =
      metadata_for sha256 gzip gunzip source payload timestamp collector_version schema_version
        source_metadata

  -- A call that returns a record, from which the payload is read.
  abbrev pub GivesBack : List Published × Result Error RawRecord → Type 0
  GivesBack result =
      (r : RawRecord) × (result.1 ≡ ok r) × (read sha256 gzip gunzip result.0 r ≡ ok payload)

  new_lem :
      ((b : Bytes) → gunzip (gzip b) ≡ some b)
      → lookup here store ≡ none
      → GivesBack (publish sha256 gzip gunzip no_fault here payload metadata store)
  unfolding publish
  new_lem unzip h =
      let p = published sha256 gzip gunzip here payload metadata in
      let (a, b) =
        load_intact sha256 gzip gunzip (store ++ (p ∷ [])) here p payload
          (lookup_new here store p h (same_directory_self here)) (unzip payload) refl refl in
      (record { directory = here; metadata = metadata }, a, b)

  old_lem :
      (p : Published)
      → IsIntact sha256 gzip gunzip p
      → ((b : Bytes) → sha256 b ≡ sha256 payload → b ≡ payload)
      → lookup here store ≡ some p
      → GivesBack (store, load_checked sha256 gzip gunzip store here)
  old_lem p (stored, g, s, n, c) apart h =
      let m = lookup-some here store {p = p} h in
      let k : p.directory.checksum ≡ sha256 payload =
        (eq_iff p.directory.checksum (sha256 payload)).0 (ground arith) in
      let e = apart stored (s ∙ c ∙ k) in
      let (a, b) = load_intact sha256 gzip gunzip store here p stored h g s n in
      (record { directory = here; metadata = p.metadata }, a, b ∙ ap ok e)

  valid_lem :
      ((b : Bytes) → gunzip (gzip b) ≡ some b)
      → ((b : Bytes) → sha256 b ≡ sha256 payload → b ≡ payload)
      → All (IsIntact sha256 gzip gunzip) store
      → GivesBack (
          write_valid sha256 gzip gunzip no_fault source payload timestamp collector_version
            schema_version source_metadata store)
  unfolding write_valid
  valid_lem unzip apart a = elim (Option-cases (lookup here store)) [
    | inl h ↦ rw h (new_lem unzip h)
    | inr (p, h) ↦
        rw h (old_lem p (lookup_All (IsIntact sha256 gzip gunzip) here store {p = p} a h) apart h)
  ]

  -- If gunzip undoes gzip, no other payload has the checksum of this one, and all that is published is
  -- intact: a write of a valid source and an aware instant without a fault returns a record, and
  -- reading it gives the payload, whether the directory is new or was there before.
  pub read-write :
      ((b : Bytes) → gunzip (gzip b) ≡ some b)
      → ((b : Bytes) → sha256 b ≡ sha256 payload → b ≡ payload)
      → All (IsIntact sha256 gzip gunzip) store
      → is_source source ≡ true
      → GivesBack (
          write sha256 gzip gunzip no_fault source payload
            (aware timestamp)
            collector_version
            schema_version
            source_metadata
            store)
  unfolding write
  read-write unzip apart a v = rw v (valid_lem unzip apart a)
