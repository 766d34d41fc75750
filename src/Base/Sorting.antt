-- ===== src/Base/Sorting.antt =====
-- `sorted` on texts.
use Prim.Native.String.{String, compare}
use Prim.Native.Nat.{Ordering}
use mathlib.Core.List.{List, [], ◌∷◌}

abbrev pub insert_text : String → List String → List String
insert_text s [] = s ∷ []
insert_text s (t ∷ ts) =
    let rest = insert_text s ts in elim (compare t s) [ Ordering.lt ↦ t ∷ rest | _ ↦ s ∷ t ∷ ts ]

abbrev pub sort_texts : List String → List String
sort_texts [] = []
sort_texts (s ∷ ts) = insert_text s (sort_texts ts)
