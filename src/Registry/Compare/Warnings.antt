-- ===== src/Registry/Compare/Warnings.antt =====
-- `RegistryIssue` with the severity of a warning, and `warning_payloads`.
use Prim.Native.Nat.{Ordering}
use Prim.Native.String.{compare}
use signal_observatory.Prelude.{
  Bool, true, false, ◌≡◌, Option, none, some, List, [], ◌∷◌, String, if◌then◌else◌, arith,
}
use signal_observatory.Registry.Values.{string_discrete}

pub record Warning : Type 0 where
  pub code : String
  pub message : String
  pub source_file : Option String
  pub entity : Option String

-- `_warning`.
abbrev pub warning : String → String → String → Warning
warning code message entity = record {
  code = code;
  message = message;
  source_file = none;
  entity = some entity;
}

abbrev or_empty : Option String → String
or_empty none = ""
or_empty (some s) = s

-- The order of the tuples that `sorted` is given.
warning_le : Warning → Warning → Bool
warning_le a b = elim (compare a.code b.code) [
  | Ordering.lt ↦ true
  | Ordering.gt ↦ false
  | Ordering.eq ↦ elim (compare (or_empty a.entity) (or_empty b.entity)) [
    | Ordering.lt ↦ true
    | Ordering.gt ↦ false
    | Ordering.eq ↦ elim (compare (or_empty a.source_file) (or_empty b.source_file)) [
      | Ordering.lt ↦ true
      | Ordering.gt ↦ false
      | Ordering.eq ↦ elim (compare a.message b.message) [ Ordering.gt ↦ false | _ ↦ true ]
    ]
  ]
]

insert_warning : Warning → List Warning → List Warning
insert_warning w [] = w ∷ []
insert_warning w (v ∷ vs) = if warning_le w v then w ∷ v ∷ vs else v ∷ insert_warning w vs

unfoldable pub warning_payloads : List Warning → List Warning
unfolding insert_warning warning_le
warning_payloads [] = []
warning_payloads (w ∷ ws) = insert_warning w (warning_payloads ws)

pub warnings-discrete : Discrete (List Warning)
warnings-discrete = hlevel (string_discrete)

unfoldable pub same_warnings : List Warning → List Warning → Bool
same_warnings a b = elim (warnings-discrete a b) [ yes _ ↦ true | no _ ↦ false ]

pub same_warnings_self : (a : List Warning) → same_warnings a a ≡ true
unfolding same_warnings
same_warnings_self a = ground arith
