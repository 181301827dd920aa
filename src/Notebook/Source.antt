-- ===== src/Notebook/Source.antt =====
-- core/src/notebook.rs: a cell's source as an array of lines.
use jupynvim.Prelude.{ℕ, ◌≡◌, refl, ap, ◌∙◌, List, [], ◌∷◌, if_elim, ◌==◌}
use jupynvim.Notebook.{Text, split_inclusive, prepend, join}

join-prepend : (c : ℕ) (lines : List Text) → join (prepend c lines) ≡ c ∷ join lines
unfolding join prepend
join-prepend c [] = refl
join-prepend c (line ∷ lines) = refl

-- The lines of a text, put together again, are the text.
pub join-split_inclusive : (s : Text) → join (split_inclusive s) ≡ s
unfolding join split_inclusive
join-split_inclusive [] = refl
join-split_inclusive (c ∷ s) =
    if_elim (λ lines. join lines ≡ c ∷ s) (c == b'\n') ((c ∷ []) ∷ split_inclusive s)
      (prepend c (split_inclusive s)) (λ _. ap (λ t. c ∷ t) (join-split_inclusive s))
      (λ _. join-prepend c (split_inclusive s) ∙ ap (λ t. c ∷ t) (join-split_inclusive s))
