-- ===== src/Stores/Checkpoint.antt =====
-- `LocalCheckpointStore` (checkpoint.py): one JSON file for each source, written beside it and then
-- moved over it. The files are those of the root's directory. `json` is a parameter: `dump` gives the
-- text of a checkpoint and `load` what a text stands for. The random part of the temporary name is an input.
pub mod RoundTrip
use signal_observatory.Prelude.{
  ℕ, suc, ◌+◌, ap, ◌∙◌, Bool, Bool-cases, inl, inr, true, false, not, Option, none, some, List, [],
  ◌∷◌, ◌++◌, ◌≡◌, refl, if◌then◌else◌, find, select, length, length-append, arith, Result, ok, err,
  ◌>>◌, ◌==◌, ◌&&◌,
}
use signal_observatory.Errors.{Error, bad_json}
use signal_observatory.Text.{Text, text_eq, codes}
use signal_observatory.Stores.{validate_source, is_source, is_letter_or_digit}
use signal_observatory.Stores.Raw.Laws.{text_eq_self, text_eq_lem}

pub record File : Type 0 where
  pub name : Text
  pub content : Text

abbrev pub Files : Type 0
Files = List File

abbrev pub extension : Text
extension = codes ".json"

-- `_path`, below the root.
abbrev pub file_name : Text → Text
file_name source = source ++ extension

-- `mkstemp(prefix=f".{source}-")`.
abbrev pub temporary_name : Text → Text → Text
temporary_name source random = b'.' ∷ (source ++ (b'-' ∷ random))

abbrev pub content_of : Option File → Option Text
content_of none = none
content_of (some f) = some f.content

abbrev pub lookup : Text → Files → Option Text
lookup name files = content_of (find (λ f. text_eq f.name name) files)

-- A file is created or overwritten.
unfoldable pub put : Text → Text → Files → Files
put name content [] = record { name = name; content = content } ∷ []
put name content (f ∷ fs) =
    let rest = put name content fs in
    if text_eq f.name name then record f { content = content } ∷ fs else f ∷ rest

-- `Path.unlink(missing_ok=True)`.
abbrev pub unlink : Text → Files → Files
unlink name files = select (λ f. not (text_eq f.name name)) files

-- `os.replace`.
abbrev pub replace_file : Text → Text → Files → Files
replace_file from to files = elim (lookup from files) [
  | none ↦ files
  | some content ↦ put to content (unlink from files)
]

module _ {Checkpoint : Type 0} (dump : Checkpoint → Text) (load : Text → Option Checkpoint) where
  abbrev pub read_text : Option Text → Result Error (Option Checkpoint)
  read_text none = ok none
  read_text (some text) = elim (load text) [ none ↦ err bad_json | some c ↦ ok (some c) ]

  unfoldable pub get : Files → Text → Result Error (Option Checkpoint)
  get files source = do validate_source source; read_text (lookup (file_name source) files)

  -- The text of the file, which ends with a newline.
  abbrev pub file_text : Checkpoint → Text
  file_text checkpoint = dump checkpoint ++ (10 ∷ [])

  -- `fault` is what a call between `mkstemp` and `os.replace` raises, after some of the text, `part`, is
  -- written; the temporary file is then removed.
  unfoldable pub set :
      Option (Error × Text) → Text → Files → Text → Checkpoint → Files × Result Error (Unit {0})
  unfolding put
  set fault random files source checkpoint =
      let temporary = temporary_name source random in
      elim (validate_source source) [
        | err e ↦ (files, err e)
        | ok _ ↦ elim fault [
          | some (e, part) ↦ (unlink temporary (put temporary part files), err e)
          | none ↦ (
            replace_file temporary (file_name source) (put temporary (file_text checkpoint) files),
            ok tt,
          )
        ]
      ]
