-- ===== src/Tests/StoresTests.antt =====
-- The stores with small stand-ins for SHA-256 and gzip.
use signal_observatory.Prelude.{
  ◌≡◌, refl, Option, none, some, [], ◌∷◌, String, ok, err, Result, ◌==◌, All, is_empty, eq_iff,
  if◌then◌else◌,
}
use signal_observatory.Errors.{Error, client_error, bad_source}
use signal_observatory.Clock.{aware}
use signal_observatory.Text.{Text, codes}
use signal_observatory.Stores.{is_source}
use signal_observatory.Stores.Raw.{
  Bytes, Published, no_fault, after_publish, lookup, write, published, directory_for, metadata_for,
}
use signal_observatory.Stores.Raw.Laws.{IsIntact, write-Intact}
use signal_observatory.Stores.Raw.RoundTrip.{GivesBack, read-write}
use signal_observatory.Stores.Checkpoint.{Files, get, set}
use signal_observatory.Stores.Checkpoint.RoundTrip.{get-set}

-- Only the empty payload has the checksum "e".
abbrev sha : Bytes → String
sha b = if is_empty b then "e" else "f"

abbrev zip : Bytes → Bytes
zip b = 31 ∷ b

abbrev unzip : Bytes → Option Bytes
unzip [] = none
unzip (c ∷ b) = some b

unzip-zip : (b : Bytes) → unzip (zip b) ≡ some b
unzip-zip b = refl

sha_apart : (b : Bytes) → sha b ≡ sha [] → b ≡ []
sha_apart [] h = refl
sha_apart (c ∷ b) h = cc ((eq_iff "f" "e").1 h)

abbrev stored : Published
stored =
    published sha zip unzip (directory_for sha zip unzip (codes "arxiv") (1 ∷ []) 5) (1 ∷ [])
      (metadata_for sha zip unzip (codes "arxiv") (1 ∷ []) 5 "1" "1" "{}")

stored-IsIntact : All (IsIntact sha zip unzip) (stored ∷ [])
stored-IsIntact = ((1 ∷ [], refl, refl, refl, refl), tt)

upper :
    (write sha zip unzip no_fault (codes "ArXiv") [] (aware 5) "1" "1" "{}" []).1 ≡ err bad_source
unfolding write is_source
upper = refl

read-write_example :
    GivesBack sha zip unzip
      (codes "arxiv")
      []
      5
      "1"
      "1"
      "{}"
      (stored ∷ [])
      (write sha zip unzip no_fault (codes "arxiv") [] (aware 5) "1" "1" "{}" (stored ∷ []))
unfolding is_source
read-write_example =
    read-write sha zip unzip (codes "arxiv") [] 5 "1" "1" "{}" (stored ∷ []) unzip-zip sha_apart
      stored-IsIntact refl

write-Intact_example :
    All
      (IsIntact sha zip unzip)
      (write sha zip unzip
        (after_publish client_error)
        (codes "arxiv")
        []
        (aware 5)
        "1"
        "1"
        "{}"
        (stored ∷ [])).0
    × (lookup stored.directory
          (write sha zip unzip
            (after_publish client_error)
            (codes "arxiv")
            []
            (aware 5)
            "1"
            "1"
            "{}"
            (stored ∷ [])).0
        ≡ some stored)
write-Intact_example =
    write-Intact sha zip unzip (after_publish client_error) (codes "arxiv") [] "1" "1" "{}"
      (stored ∷ []) (aware 5) stored.directory stored unzip-zip stored-IsIntact refl

abbrev one_file : Files
one_file = record { name = codes "github.json"; content = 7 ∷ 10 ∷ [] } ∷ []

-- Checkpoints are texts without a newline.
abbrev strip : Text → Option Text
strip [] = none
strip (c ∷ []) = if c == 10 then some [] else none
strip (c ∷ d ∷ cs) = elim (strip (d ∷ cs)) [ none ↦ none | some t ↦ some (c ∷ t) ]

abbrev stores_checkpoint : Files
stores_checkpoint = (set (λ c. c) strip none (codes "x1") one_file (codes "arxiv") (9 ∷ [])).0

abbrev fails_at : Error → Text → Files × Result Error (Unit {0})
fails_at e part = set (λ c. c) strip (some (e, part)) (codes "x1") one_file (codes "arxiv") (9 ∷ [])

get-set_example :
    (get (λ c. c) strip stores_checkpoint (codes "arxiv") ≡ ok (some (9 ∷ [])))
    × (get (λ c. c) strip stores_checkpoint (codes "github")
        ≡ get (λ c. c) strip one_file (codes "github"))
    × ((e : Error) (part name : Text)
        → ((fails_at e part).1 ≡ err e)
          × (get (λ c. c) strip (fails_at e part).0 name ≡ get (λ c. c) strip one_file name))
unfolding is_source
get-set_example =
    get-set (λ c. c) strip one_file (codes "x1") (codes "arxiv") (codes "github") (9 ∷ []) refl refl
      refl
