-- ===== src/Stores/Checkpoint/RoundTrip.antt =====
-- What `get` finds after `set`, of the checkpoint store (checkpoint.py).
use signal_observatory.Prelude.{
  suc, ap, ◌∙◌, Bool-cases, inl, inr, true, false, Option, none, some, [], ◌∷◌, ◌++◌, ◌≡◌, refl,
  length, length-append, arith, Result, ok, err, ◌==◌,
}
use signal_observatory.Errors.{Error}
use signal_observatory.Text.{Text, text_eq}
use signal_observatory.Stores.{is_source}
use signal_observatory.Stores.Raw.Laws.{text_eq_self, text_eq_lem}
use signal_observatory.Stores.Checkpoint.{
  Files, extension, file_name, temporary_name, lookup, put, unlink, replace_file, get, set,
  file_text, read_text,
}

lookup-put :
    (name content : Text) (files : Files) → lookup name (put name content files) ≡ some content
unfolding put
lookup-put name content [] = rw (text_eq_self name) refl
lookup-put name content (f ∷ fs) = elim (Bool-cases (text_eq f.name name)) [
  | inl m ↦ rw m (rw m refl)
  | inr m ↦ rw m (rw m (lookup-put name content fs))
]

lookup-put_other :
    (name other content : Text) (files : Files)
    → text_eq name other ≡ false
    → lookup other (put name content files) ≡ lookup other files
unfolding put
lookup-put_other name other content [] h = rw h refl
lookup-put_other name other content (f ∷ fs) h = elim (Bool-cases (text_eq f.name name)) [
  | inl m ↦
      let e : text_eq f.name other ≡ false =
        ap (λ s. text_eq s other) (text_eq_lem f.name name m) ∙ h in
      rw m (rw e refl)
  | inr m ↦ elim (Bool-cases (text_eq f.name other)) [
    | inl k ↦ rw m (rw k refl)
    | inr k ↦ rw m (rw k (lookup-put_other name other content fs h))
  ]
]

lookup-unlink :
    (name other : Text) (files : Files)
    → text_eq name other ≡ false
    → lookup other (unlink name files) ≡ lookup other files
lookup-unlink name other [] h = refl
lookup-unlink name other (f ∷ fs) h = elim (Bool-cases (text_eq f.name name)) [
  | inl m ↦
      let e : text_eq f.name other ≡ false =
        ap (λ s. text_eq s other) (text_eq_lem f.name name m) ∙ h in
      rw m (rw e (lookup-unlink name other fs h))
  | inr m ↦ elim (Bool-cases (text_eq f.name other)) [
    | inl k ↦ rw m (rw k refl)
    | inr k ↦ rw m (rw k (lookup-unlink name other fs h))
  ]
]

-- The text before an ending is determined.
text_eq-append :
    (a b ending : Text) → text_eq (a ++ ending) (b ++ ending) ≡ true → text_eq a b ≡ true
text_eq-append [] [] ending h = refl
text_eq-append [] (d ∷ b) ending h =
    let e : length ending ≡ suc (length (b ++ ending)) =
      ap length (text_eq_lem ending (d ∷ (b ++ ending)) h) in
    let bad : ⊥ = omega (arith, e, length-append b ending) in elim bad [ ]
text_eq-append (c ∷ a) [] ending h =
    let e : suc (length (a ++ ending)) ≡ length ending =
      ap length (text_eq_lem (c ∷ (a ++ ending)) ending h) in
    let bad : ⊥ = omega (arith, e, length-append a ending) in elim bad [ ]
text_eq-append (c ∷ a) (d ∷ b) ending h = elim (Bool-cases (c == d)) [
  | inl e ↦ rw e (text_eq-append a b ending (rw e at h))
  | inr e ↦ let bad : false ≡ true = rw e at h in cc
]

other_file :
    (source other : Text)
    → text_eq source other ≡ false
    → text_eq (file_name source) (file_name other) ≡ false
other_file source other h = elim (Bool-cases (text_eq (file_name source) (file_name other))) [
  | inl e ↦ let k = text_eq-append source other extension e in cc
  | inr e ↦ e
]

-- No file of a source is a temporary one.
not_temporary :
    (source random other : Text)
    → is_source other ≡ true
    → text_eq (temporary_name source random) (file_name other) ≡ false
unfolding is_source
not_temporary source random [] v = cc
not_temporary source random (c ∷ cs) v = elim (Bool-cases (b'.' == c)) [
  | inr e ↦ rw e refl
  | inl e ↦ ground (arith, v, e)
]

module _ {Checkpoint : Type 0} (dump : Checkpoint → Text) (load : Text → Option Checkpoint)
    (files : Files) (random source other : Text) (checkpoint : Checkpoint) where
  abbrev temporary : Text
  temporary = temporary_name source random

  -- A file that is no temporary one is not touched by a call that fails.
  get_failed :
      (part name : Text)
      → get dump load (unlink temporary (put temporary part files)) name ≡ get dump load files name
  unfolding get
  get_failed part name = elim (Bool-cases (is_source name)) [
    | inr i ↦ rw i refl
    | inl v ↦
        let n = not_temporary source random name v in
        rw v (
          ap (read_text dump load) (
            lookup-unlink temporary (file_name name) (put temporary part files) n
            ∙ lookup-put_other temporary (file_name name) part files n))
  ]

  -- The files after a call without a fault.
  abbrev moved : Files
  moved =
      put (file_name source) (file_text dump load checkpoint)
        (unlink temporary (put temporary (file_text dump load checkpoint) files))

  set_lem :
      is_source source ≡ true → set dump load none random files source checkpoint ≡ (moved, ok tt)
  unfolding set
  set_lem v = rw (v, set) (replaced (file_text dump load checkpoint))
    where
      replaced :
          (text : Text)
          → ◌≡◌ {A = Files × Result Error (Unit {0})}
              (replace_file temporary (file_name source) (put temporary text files), ok tt)
              (put (file_name source) text (unlink temporary (put temporary text files)), ok tt)
      replaced text = rw (lookup-put temporary text files, replace_file) refl

  get-moved_other :
      text_eq source other ≡ false → get dump load moved other ≡ get dump load files other
  unfolding get
  get-moved_other h = elim (Bool-cases (is_source other)) [
    | inr i ↦ rw i refl
    | inl v ↦
        let n = not_temporary source random other v in
        let text = file_text dump load checkpoint in
        rw v (
          ap (read_text dump load) (
            lookup-put_other (file_name source) (file_name other) text
              (unlink temporary (put temporary text files)) (other_file source other h)
            ∙ lookup-unlink temporary (file_name other) (put temporary text files) n
            ∙ lookup-put_other temporary (file_name other) text files n))
  ]

  get-moved :
      load (file_text dump load checkpoint) ≡ some checkpoint
      → is_source source ≡ true
      → get dump load moved source ≡ ok (some checkpoint)
  unfolding get
  get-moved back v = rw v (
      ap (read_text dump load) (
        lookup-put (file_name source) (file_text dump load checkpoint)
          (unlink temporary (put temporary (file_text dump load checkpoint) files)))
      ∙ read_lem)
    where
      read_lem : read_text dump load (some (file_text dump load checkpoint)) ≡ ok (some checkpoint)
      read_lem = rw (back, read_text) refl

  failed :
      (e : Error) (part name : Text)
      → is_source source ≡ true
      → ((set dump load (some (e, part)) random files source checkpoint).1 ≡ err e)
        × (get dump load (set dump load (some (e, part)) random files source checkpoint).0 name
            ≡ get dump load files name)
  unfolding set
  failed e part name v = rw (v, set) (refl, get_failed part name)

  -- For a valid source: if `load` gives back what `dump` writes with a newline after it, a checkpoint that
  -- is set is what `get` then returns, and `get` of any other source is as before. A call that fails at
  -- any point between the creation of the temporary file and the replacement raises that error, and `get`
  -- of every source is as before.
  pub get-set :
      load (file_text dump load checkpoint) ≡ some checkpoint
      → is_source source ≡ true
      → text_eq source other ≡ false
      → (get dump load (set dump load none random files source checkpoint).0 source
          ≡ ok (some checkpoint))
        × (get dump load (set dump load none random files source checkpoint).0 other
            ≡ get dump load files other)
        × ((e : Error) (part name : Text)
            → ((set dump load (some (e, part)) random files source checkpoint).1 ≡ err e)
              × (get dump load
                    (set dump load (some (e, part)) random files source checkpoint).0
                    name
                  ≡ get dump load files name))
  get-set back v h = (
    rw (set_lem v) (get-moved back v),
    rw (set_lem v) (get-moved_other h),
    λ e part name. failed e part name v,
  )
