-- ===== src/Client/Files/Lookup.antt =====
-- Files by their names.
use le_forum.Common.{
  ◌≡◌, ◌≢◌, refl, sym, ap, ◌∙◌, [], ◌∷◌, some, true, false, ◌==◌, eq_of_==, ==_self, Bool-cases,
  inl, inr,
}
use le_forum.Clib.Strings.{Bytes}
use le_forum.Client.State.{Files}
use le_forum.Client.Files.{same_text, get_leclient_file, write_leclient_file}

pub same_text_self : (u : Bytes) → same_text u u ≡ true
unfolding same_text
same_text_self [] = refl
same_text_self (a ∷ u) = rw (==_self a, same_text_self u)

pub eq_of_same_text : (u v : Bytes) → same_text u v ≡ true → u ≡ v
unfolding same_text
eq_of_same_text [] [] h = refl
eq_of_same_text [] (b ∷ v) h = cc
eq_of_same_text (a ∷ u) [] h = cc
eq_of_same_text (a ∷ u) (b ∷ v) h = elim (Bool-cases (a == b)) [
  | inl e ↦
      ap (λ x. x ∷ u) (eq_of_== a b e) ∙ ap (λ (w : Bytes). b ∷ w) (eq_of_same_text u v (rw e at h))
  | inr e ↦ absurd (let bad : false ≡ true = rw e at h in cc)
]

pub same_text_of_ne : (u v : Bytes) → u ≢ v → same_text u v ≡ false
same_text_of_ne u v h = elim (Bool-cases (same_text u v)) [
  | inl e ↦ absurd (h (eq_of_same_text u v e))
  | inr e ↦ e
]

pub get_leclient_file-write_same :
    (filename new : Bytes) (files : Files)
    → get_leclient_file filename (write_leclient_file filename new files) ≡ some new
unfolding get_leclient_file write_leclient_file
get_leclient_file-write_same filename new [] = rw (same_text_self filename)
get_leclient_file-write_same filename new ((name, bytes) ∷ files) =
    elim (Bool-cases (same_text name filename)) [
      | inl e ↦ rw (e, e)
      | inr e ↦ rw (e, e, get_leclient_file-write_same filename new files)
    ]

pub get_leclient_file-write_other :
    (filename other new : Bytes) (files : Files)
    → filename ≢ other
    → get_leclient_file other (write_leclient_file filename new files)
      ≡ get_leclient_file other files
unfolding get_leclient_file write_leclient_file
get_leclient_file-write_other filename other new [] h = rw (same_text_of_ne filename other h)
get_leclient_file-write_other filename other new ((name, bytes) ∷ files) h =
    elim (Bool-cases (same_text name filename)) [
      | inl e ↦
          let differ : same_text name other ≡ false =
            same_text_of_ne name other (λ same. h (sym (eq_of_same_text name filename e) ∙ same)) in
          rw (e, differ)
      | inr e ↦ elim (Bool-cases (same_text name other)) [
        | inl s ↦ rw (e, s)
        | inr s ↦ rw (e, s, get_leclient_file-write_other filename other new files h)
      ]
    ]
