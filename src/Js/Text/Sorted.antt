-- ===== src/Js/Text/Sorted.antt =====
-- Sorted lists of texts.
use quantpaca.Base.{
  ◌≡◌, refl, ap, ◌∙◌, true, false, List, [], ◌∷◌, arith, Bool-cases, inl, inr, length, suc,
}
use quantpaca.Js.Text.{Text, text_lt, insert_text, sort_texts}

-- No text stands before one that is below it.
abbrev pub IsAscending : List Text → Type 0
IsAscending [] = Unit
IsAscending (t ∷ []) = Unit
IsAscending (t ∷ u ∷ us) = (text_lt u t ≡ false) × IsAscending (u ∷ us)

text_lt_asymm : (s t : Text) → text_lt s t ≡ true → text_lt t s ≡ false
unfolding text_lt
text_lt_asymm s [] h = cc
text_lt_asymm [] (b ∷ t) h = refl
text_lt_asymm (a ∷ s) (b ∷ t) h = ground (arith, text_lt_asymm s t)

insert-IsAscending : (t : Text) (us : List Text) → IsAscending us → IsAscending (insert_text t us)
unfolding insert_text
insert-IsAscending t [] h = tt
insert-IsAscending t (u ∷ []) h = elim (Bool-cases (text_lt u t)) [
  | inl below ↦ rw below (text_lt_asymm u t below, tt)
  | inr above ↦ rw above (above, tt)
]
insert-IsAscending t (u ∷ v ∷ us) h = elim (Bool-cases (text_lt u t)) [
  | inl below ↦ elim (Bool-cases (text_lt v t)) [
    | inl further ↦
        let rest = insert-IsAscending t (v ∷ us) h.1 in
        rw (below, further) (h.0, rw further at rest)
    | inr here ↦ rw (below, here) (text_lt_asymm u t below, (here, h.1))
  ]
  | inr above ↦ rw above (above, h)
]

pub sort-IsAscending : (ts : List Text) → IsAscending (sort_texts ts)
unfolding sort_texts
sort-IsAscending [] = tt
sort-IsAscending (t ∷ ts) = insert-IsAscending t (sort_texts ts) (sort-IsAscending ts)

length-insert_text : (t : Text) (us : List Text) → length (insert_text t us) ≡ suc (length us)
unfolding insert_text
length-insert_text t [] = refl
length-insert_text t (u ∷ us) = ground (arith, length-insert_text t us)

pub length-sort_texts : (ts : List Text) → length (sort_texts ts) ≡ length ts
unfolding sort_texts
length-sort_texts [] = refl
length-sort_texts (t ∷ ts) = length-insert_text t (sort_texts ts) ∙ ap suc (length-sort_texts ts)
