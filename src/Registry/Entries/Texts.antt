-- ===== src/Registry/Entries/Texts.antt =====
-- `sorted` on texts, by code points.
use Prim.Native.String.{String, compare}
use Prim.Native.Nat.{Ordering}
use mathlib.Core.Bool.{Bool, true, false}
use mathlib.Core.List.{List, [], ◌∷◌}
use signal_observatory.Prelude.{if◌then◌else◌, Member, inl, inr, Bool-cases}

abbrev pub text_le : String → String → Bool
text_le s t = elim (compare s t) [ Ordering.gt ↦ false | _ ↦ true ]

insert_text : String → List String → List String
insert_text s [] = s ∷ []
insert_text s (t ∷ ts) = if text_le s t then s ∷ t ∷ ts else t ∷ insert_text s ts

unfoldable pub sort_texts : List String → List String
unfolding insert_text
sort_texts [] = []
sort_texts (s ∷ ss) = insert_text s (sort_texts ss)

Member-insert_text :
    (x s : String) (ts : List String) → Member x (s ∷ ts) → Member x (insert_text s ts)
unfolding insert_text
Member-insert_text x s [] m = m
Member-insert_text x s (t ∷ ts) m = elim (Bool-cases (text_le s t)) [
  | inl e ↦ rw (e, insert_text) m
  | inr e ↦ rw (e, insert_text) (moved (Member-insert_text x s ts) m)
]
  where
    moved :
        (Member x (s ∷ ts) → Member x (insert_text s ts))
        → Member x (s ∷ t ∷ ts)
        → Member x (t ∷ insert_text s ts)
    moved ih (inl a) = inr (ih (inl a))
    moved ih (inr (inl a)) = inl a
    moved ih (inr (inr m)) = inr (ih (inr m))

-- No text is lost.
pub Member-sort_texts : (x : String) (ss : List String) → Member x ss → Member x (sort_texts ss)
unfolding sort_texts
Member-sort_texts x [] m = m
Member-sort_texts x (s ∷ ss) (inl e) = Member-insert_text x s (sort_texts ss) (inl e)
Member-sort_texts x (s ∷ ss) (inr m) =
    Member-insert_text x s (sort_texts ss) (inr (Member-sort_texts x ss m))
