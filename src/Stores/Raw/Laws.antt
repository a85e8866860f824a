-- ===== src/Stores/Raw/Laws.antt =====
-- A Raw payload is read back as it was written, and nothing that is published changes.
use signal_observatory.Prelude.{
  ℕ, true, Option, none, some, List, [], ◌∷◌, ◌++◌, String, eq_iff, length, is_some, ◌≡◌, refl, sym,
  ◌∙◌, arith, Bool-cases, inl, inr, All, All-append, Result, ok, err, ◌>>◌, ==_iff,
}
use signal_observatory.Errors.{Error}
use signal_observatory.Clock.{Datetime, utc}
use signal_observatory.Text.{Text, text_eq}
use signal_observatory.Stores.{validate_source}
use signal_observatory.Stores.Raw.{
  Bytes, Directory, RawMetadata, RawRecord, Published, Fault, no_fault, before_publish,
  after_publish, same_directory, lookup, load, checked, read_file, read, load_checked, published,
  publish, write_valid, write, directory_for, metadata_for, continued,
}

pub text_eq_self : (s : Text) → text_eq s s ≡ true
text_eq_self [] = refl
text_eq_self (c ∷ s) = ground (arith, text_eq_self s)

pub text_eq_lem : (s t : Text) → text_eq s t ≡ true → s ≡ t
text_eq_lem [] [] h = refl
text_eq_lem [] (d ∷ t) h = cc
text_eq_lem (c ∷ s) [] h = cc
text_eq_lem (c ∷ s) (d ∷ t) h =
    let e : c ≡ d = ground arith in
    let r : s ≡ t = text_eq_lem s t (ground arith) in rw e (rw r refl)

pub same_directory_self : (d : Directory) → same_directory d d ≡ true
same_directory_self d = ground (arith, text_eq_self d.source, eq_iff d.checksum d.checksum)

pub lookup-some :
    (d : Directory) (store : List Published) {p : Published}
    → lookup d store ≡ some p
    → same_directory p.directory d ≡ true
lookup-some d [] h = cc
lookup-some d (q ∷ store) {p} h = elim (Bool-cases (same_directory q.directory d)) [
  | inl m ↦ let e : q ≡ p = ground arith in rw (← e) m
  | inr m ↦ lookup-some d store {p = p} (ground arith)
]

pub lookup_All :
    (P : Published → Type 0) (d : Directory) (store : List Published) {p : Published}
    → All P store
    → lookup d store ≡ some p
    → P p
lookup_All P d [] a h = cc
lookup_All P d (q ∷ store) {p} a h = elim (Bool-cases (same_directory q.directory d)) [
  | inl m ↦ let e : q ≡ p = ground arith in rw (← e) a.0
  | inr m ↦ lookup_All P d store {p = p} a.1 (ground arith)
]

lookup-append :
    (d : Directory) (store more : List Published) {p : Published}
    → lookup d store ≡ some p
    → lookup d (store ++ more) ≡ some p
lookup-append d [] more h = cc
lookup-append d (q ∷ store) more {p} h = elim (Bool-cases (same_directory q.directory d)) [
  | inl m ↦ rw m (rw m at h)
  | inr m ↦ rw m (lookup-append d store more {p = p} (rw m at h))
]

pub lookup_new :
    (d : Directory) (store : List Published) (p : Published)
    → lookup d store ≡ none
    → same_directory p.directory d ≡ true
    → lookup d (store ++ (p ∷ [])) ≡ some p
lookup_new d [] p h s = rw s refl
lookup_new d (q ∷ store) p h s = ground (arith, lookup_new d store p)

module _ (sha256 : Bytes → String) (gzip : Bytes → Bytes) (gunzip : Bytes → Option Bytes) where
  -- The payload that a directory holds has the checksum and the length that its metadata and its name say.
  abbrev pub IsIntact : Published → Type 0
  IsIntact p =
      (payload : Bytes) × (gunzip p.payload_gz ≡ some payload)
      × (sha256 payload ≡ p.metadata.sha256)
      × (length payload ≡ p.metadata.uncompressed_bytes)
      × (p.metadata.sha256 ≡ p.directory.checksum)

  checked_lem :
      (metadata : RawMetadata) (payload : Bytes)
      → sha256 payload ≡ metadata.sha256
      → length payload ≡ metadata.uncompressed_bytes
      → checked sha256 gzip gunzip metadata payload ≡ ok payload
  checked_lem metadata payload s n =
      rw ((eq_iff (sha256 payload) metadata.sha256).1 s)
        (rw ((==_iff (length payload) metadata.uncompressed_bytes).1 n) refl)

  -- The record of an intact directory is loaded and its payload read.
  pub load_intact :
      (store : List Published) (d : Directory) (p : Published) (payload : Bytes)
      → lookup d store ≡ some p
      → gunzip p.payload_gz ≡ some payload
      → sha256 payload ≡ p.metadata.sha256
      → length payload ≡ p.metadata.uncompressed_bytes
      → (load_checked sha256 gzip gunzip store d
          ≡ ok (record { directory = d; metadata = p.metadata }))
        × (read sha256 gzip gunzip store (record { directory = d; metadata = p.metadata })
            ≡ ok payload)
  unfolding load_checked load read read_file
  load_intact store d p payload l g s n =
      let c = checked_lem p.metadata payload s n in
      (
        rw (l, load_checked, load) (rw (l, read) (rw (g, read_file) (rw c refl))),
        rw (l, read) (rw (g, read_file) c),
      )

  module _ (unzip : (b : Bytes) → gunzip (gzip b) ≡ some b) where
    published-IsIntact :
        (d : Directory) (payload : Bytes) (metadata : RawMetadata)
        → metadata.sha256 ≡ sha256 payload
        → metadata.uncompressed_bytes ≡ length payload
        → d.checksum ≡ sha256 payload
        → IsIntact (published sha256 gzip gunzip d payload metadata)
    published-IsIntact d payload metadata s n c = (payload, unzip payload, sym s, sym n, s ∙ sym c)

    publish-Intact :
        (fault : Fault) (d : Directory) (payload : Bytes) (metadata : RawMetadata)
        (store : List Published)
        → IsIntact (published sha256 gzip gunzip d payload metadata)
        → All IsIntact store
        → All IsIntact (publish sha256 gzip gunzip fault d payload metadata store).0
    unfolding publish
    publish-Intact no_fault d payload metadata store i a =
        All-append IsIntact store (published sha256 gzip gunzip d payload metadata ∷ []) a (i, tt)
    publish-Intact (before_publish e) d payload metadata store i a = a
    publish-Intact (after_publish e) d payload metadata store i a =
        All-append IsIntact store (published sha256 gzip gunzip d payload metadata ∷ []) a (i, tt)

  publish_retains :
      (fault : Fault) (d : Directory) (payload : Bytes) (metadata : RawMetadata)
      (store : List Published) (other : Directory) (p : Published)
      → lookup other store ≡ some p
      → lookup other (publish sha256 gzip gunzip fault d payload metadata store).0 ≡ some p
  unfolding publish
  publish_retains no_fault d payload metadata store other p h =
      lookup-append other store _ {p = p} h
  publish_retains (before_publish e) d payload metadata store other p h = h
  publish_retains (after_publish e) d payload metadata store other p h =
      lookup-append other store _ {p = p} h

  module _ (fault : Fault) (source : Text) (payload : Bytes)
      (collector_version schema_version source_metadata : String) (store : List Published) where
    valid_retains :
        (timestamp : ℕ) (d : Directory) (p : Published)
        → lookup d store ≡ some p
        → lookup d
            (write_valid sha256 gzip gunzip fault source payload timestamp collector_version
              schema_version source_metadata store).0
          ≡ some p
    unfolding write_valid
    valid_retains timestamp d p h =
        elim (Bool-cases
          (is_some (lookup (directory_for sha256 gzip gunzip source payload timestamp) store))) [
            | inl q ↦ rw q h
            | inr q ↦ rw q (
                publish_retains fault (directory_for sha256 gzip gunzip source payload timestamp)
                  payload
                  (metadata_for sha256 gzip gunzip source payload timestamp collector_version
                    schema_version source_metadata)
                  store d p h)
          ]

    valid-Intact :
        (timestamp : ℕ)
        → ((b : Bytes) → gunzip (gzip b) ≡ some b)
        → All IsIntact store
        → All IsIntact
            (write_valid sha256 gzip gunzip fault source payload timestamp collector_version
              schema_version source_metadata store).0
    unfolding write_valid
    valid-Intact timestamp unzip a =
        let here = directory_for sha256 gzip gunzip source payload timestamp in
        let metadata =
          metadata_for sha256 gzip gunzip source payload timestamp collector_version schema_version
            source_metadata in
        elim (Bool-cases
          (is_some (lookup (directory_for sha256 gzip gunzip source payload timestamp) store))) [
            | inl q ↦ rw q a
            | inr q ↦ rw q (
                publish-Intact unzip fault here payload metadata store
                  (published-IsIntact unzip here payload metadata refl refl refl) a)
          ]

    -- If gunzip undoes gzip and all that is published is intact: after any write, with whatever input and
    -- whatever fault, all that is published is intact, and a directory that was there is there unchanged.
    pub write-Intact :
        (request_timestamp : Datetime) (d : Directory) (p : Published)
        → ((b : Bytes) → gunzip (gzip b) ≡ some b)
        → All IsIntact store
        → lookup d store ≡ some p
        → All IsIntact
            (write sha256 gzip gunzip fault source payload request_timestamp collector_version
              schema_version source_metadata store).0
          × (lookup d
                (write sha256 gzip gunzip fault source payload request_timestamp collector_version
                  schema_version source_metadata store).0
              ≡ some p)
    unfolding write
    write-Intact request_timestamp d p unzip a h =
        by_checks (validate_source source >> utc request_timestamp)
          (λ timestamp.
            write_valid sha256 gzip gunzip fault source payload timestamp collector_version
              schema_version source_metadata store)
          (λ timestamp. (valid-Intact timestamp unzip a, valid_retains timestamp d p h))
      where
        by_checks :
            (m : Result Error ℕ) (next : ℕ → List Published × Result Error RawRecord)
            → ((timestamp : ℕ)
                → All IsIntact (next timestamp).0 × (lookup d (next timestamp).0 ≡ some p))
            → All IsIntact (continued sha256 gzip gunzip store m next).0
              × (lookup d (continued sha256 gzip gunzip store m next).0 ≡ some p)
        by_checks (err e) next k = (a, h)
        by_checks (ok timestamp) next k = k timestamp
