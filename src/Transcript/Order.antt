-- ===== src/Transcript/Order.antt =====
-- The byte order of sort.Strings is a linear order.
use claude_cowork_service.Base.{
  All, Bool-cases, Bytes, List, [], ap, arith, elem, eqb, false, inl, inr, refl, true, ◌||◌, ◌∙◌,
  ◌∷◌, ◌≡◌,
}
use claude_cowork_service.Transcript.{insert_sorted, lex_leb, sort_strings}

pub lex_leb_total : (s t : Bytes) → lex_leb s t ≡ false → lex_leb t s ≡ true
unfolding lex_leb
lex_leb_total [] t h = cc
lex_leb_total (a ∷ s) [] h = refl
lex_leb_total (a ∷ s) (b ∷ t) h = ground (arith, lex_leb_total s t)

pub lex_leb_antisym : (s t : Bytes) → lex_leb s t ≡ true → lex_leb t s ≡ true → s ≡ t
unfolding lex_leb
lex_leb_antisym [] [] h k = refl
lex_leb_antisym [] (b ∷ t) h k = cc
lex_leb_antisym (a ∷ s) [] h k = cc
lex_leb_antisym (a ∷ s) (b ∷ t) h k = ground (arith, lex_leb_antisym s t)

pub lex_leb_trans : (s t u : Bytes) → lex_leb s t ≡ true → lex_leb t u ≡ true → lex_leb s u ≡ true
unfolding lex_leb
lex_leb_trans [] t u h k = refl
lex_leb_trans (a ∷ s) [] u h k = cc
lex_leb_trans (a ∷ s) (b ∷ t) [] h k = cc
lex_leb_trans (a ∷ s) (b ∷ t) (c ∷ u) h k = ground (arith, lex_leb_trans s t u)

-- Every name is at most every later one.
unfoldable pub IsSorted : List Bytes → Type 0
IsSorted [] = Unit
IsSorted (s ∷ ss) = All (λ t. lex_leb s t ≡ true) ss × IsSorted ss

insert_sorted-All :
    (P : Bytes → Type 0) (s : Bytes) (ss : List Bytes) → P s → All P ss → All P (insert_sorted s ss)
unfolding insert_sorted
insert_sorted-All P s [] p ps = (p, tt)
insert_sorted-All P s (t ∷ ss) p ps = elim (Bool-cases (lex_leb s t)) [
  | inl e ↦ rw e (p, ps)
  | inr e ↦ rw e (ps.0, insert_sorted-All P s ss p ps.1)
]

below-All :
    (s t : Bytes) (ss : List Bytes)
    → lex_leb s t ≡ true
    → All (λ u. lex_leb t u ≡ true) ss
    → All (λ u. lex_leb s u ≡ true) ss
below-All s t [] le h = tt
below-All s t (u ∷ ss) le h = (lex_leb_trans s t u le h.0, below-All s t ss le h.1)

insert_sorted-IsSorted : (s : Bytes) (ss : List Bytes) → IsSorted ss → IsSorted (insert_sorted s ss)
unfolding insert_sorted IsSorted
insert_sorted-IsSorted s [] h = (tt, tt)
insert_sorted-IsSorted s (t ∷ ss) h = elim (Bool-cases (lex_leb s t)) [
  | inl e ↦ rw e ((e, below-All s t ss e h.0), h)
  | inr e ↦ rw e (
    insert_sorted-All (λ u. lex_leb t u ≡ true) s ss (lex_leb_total s t e) h.0,
    insert_sorted-IsSorted s ss h.1,
  )
]

pub sort_strings-IsSorted : (ss : List Bytes) → IsSorted (sort_strings ss)
unfolding sort_strings IsSorted
sort_strings-IsSorted [] = tt
sort_strings-IsSorted (s ∷ ss) =
    insert_sorted-IsSorted s (sort_strings ss) (sort_strings-IsSorted ss)

elem-insert_sorted :
    (en s : Bytes) (ss : List Bytes) → elem en (insert_sorted s ss) ≡ (eqb s en || elem en ss)
unfolding insert_sorted elem
elem-insert_sorted en s [] = refl
elem-insert_sorted en s (t ∷ ss) = ground (arith, elem-insert_sorted en s ss)

pub elem-sort_strings : (en : Bytes) (ss : List Bytes) → elem en (sort_strings ss) ≡ elem en ss
unfolding sort_strings elem
elem-sort_strings en [] = refl
elem-sort_strings en (s ∷ ss) =
    elem-insert_sorted en s (sort_strings ss) ∙ ap (λ b. eqb s en || b) (elem-sort_strings en ss)
