-- ===== src/Session/Points/Books.antt =====
-- The map of breakpoints: lookup after a write, and lists without duplicates.
use mcp_dap_server_k8s_forwa.Prelude.{
  ℤ, pos, negsuc, ◌≡◌, ◌≢◌, refl, sym, ap, ◌∙◌, String, List, [], ◌∷◌, ◌++◌, true, false, if_true,
  if_false, arith, str_eq, eq_iff, eq_refl, eqb_ℤ, Bool-cases, inl, inr,
}
use mcp_dap_server_k8s_forwa.Session.{Breakpoints}
use mcp_dap_server_k8s_forwa.Session.Points.{lines_of, remove_file, put_lines, has_line}

pub str_eq-ne : (a b : String) → a ≢ b → str_eq a b ≡ false
str_eq-ne a b h = elim (Bool-cases (str_eq a b)) [
  | inl e ↦ absurd (h ((eq_iff a b).0 e))
  | inr e ↦ e
]

pub lines_of-remove_self :
    (file : String) (m : Breakpoints) → lines_of file (remove_file file m) ≡ []
unfolding lines_of remove_file
lines_of-remove_self file [] = refl
lines_of-remove_self file ((f, lines) ∷ m) = elim (Bool-cases (str_eq f file)) [
  | inl e ↦ rw e (lines_of-remove_self file m)
  | inr e ↦ rw (e, lines_of, e) (lines_of-remove_self file m)
]

pub lines_of-remove_ne :
    (file g : String) (m : Breakpoints) → g ≢ file → lines_of g (remove_file file m) ≡ lines_of g m
unfolding lines_of remove_file
lines_of-remove_ne file g [] h = refl
lines_of-remove_ne file g ((f, lines) ∷ m) h = elim (Bool-cases (str_eq f file)) [
  | inl e ↦
      let ne : str_eq f g ≡ false = str_eq-ne f g (λ u. h (sym u ∙ (eq_iff f file).0 e)) in
      rw (e, ne) (lines_of-remove_ne file g m h)
  | inr e ↦ elim (Bool-cases (str_eq f g)) [
    | inl u ↦ rw (e, lines_of, u)
    | inr u ↦ rw (e, lines_of, u) (lines_of-remove_ne file g m h)
  ]
]

pub lines_of-put_self :
    (file : String) (lines : List ℤ) (m : Breakpoints)
    → lines_of file (put_lines file lines m) ≡ lines
unfolding lines_of put_lines
lines_of-put_self file lines m = if_true _ _ (eq_refl file)

pub lines_of-put_ne :
    (file g : String) (lines : List ℤ) (m : Breakpoints)
    → g ≢ file
    → lines_of g (put_lines file lines m) ≡ lines_of g m
unfolding lines_of put_lines
lines_of-put_ne file g lines m h =
    if_false _ _ (str_eq-ne file g (λ e. h (sym e))) ∙ lines_of-remove_ne file g m h

abbrev pub IsDistinct : List ℤ → Type 0
IsDistinct [] = Unit
IsDistinct (x ∷ xs) = (has_line x xs ≡ false) × IsDistinct xs

eqb_ℤ-sym : (a b : ℤ) → eqb_ℤ a b ≡ eqb_ℤ b a
eqb_ℤ-sym (pos a) (pos b) = ground arith
eqb_ℤ-sym (pos a) (negsuc b) = refl
eqb_ℤ-sym (negsuc a) (pos b) = refl
eqb_ℤ-sym (negsuc a) (negsuc b) = ground arith

has_line-append :
    (x y : ℤ) (xs : List ℤ)
    → has_line x xs ≡ false
    → eqb_ℤ y x ≡ false
    → has_line x (xs ++ (y ∷ [])) ≡ false
has_line-append x y [] h k = rw k
has_line-append x y (z ∷ xs) h k = elim (Bool-cases (eqb_ℤ z x)) [
  | inl e ↦ absurd (cc (h, if_true true (has_line x xs) e))
  | inr e ↦ if_false _ _ e ∙ has_line-append x y xs (sym (if_false _ _ e) ∙ h) k
]

pub IsDistinct-append :
    (y : ℤ) (xs : List ℤ) → has_line y xs ≡ false → IsDistinct xs → IsDistinct (xs ++ (y ∷ []))
IsDistinct-append y [] h d = (refl, tt)
IsDistinct-append y (x ∷ xs) h (n, d) = elim (Bool-cases (eqb_ℤ x y)) [
  | inl e ↦ absurd (cc (h, if_true true (has_line y xs) e))
  | inr e ↦ (
    has_line-append x y xs n (eqb_ℤ-sym y x ∙ e),
    IsDistinct-append y xs (sym (if_false _ _ e) ∙ h) d,
  )
]

-- The map has one entry for a file.
abbrev pub IsAbsent : String → Breakpoints → Type 0
IsAbsent file [] = Unit
IsAbsent file ((f, lines) ∷ m) = (f ≢ file) × IsAbsent file m

abbrev pub IsMap : Breakpoints → Type 0
IsMap [] = Unit
IsMap ((f, lines) ∷ m) = IsAbsent f m × IsMap m

pub str_eq-false : (a b : String) → str_eq a b ≡ false → a ≢ b
str_eq-false a b u q = absurd (cc (u, ap (λ x. str_eq x b) q, eq_refl b))

IsAbsent-remove_self : (file : String) (m : Breakpoints) → IsAbsent file (remove_file file m)
unfolding remove_file
IsAbsent-remove_self file [] = tt
IsAbsent-remove_self file ((f, lines) ∷ m) = elim (Bool-cases (str_eq f file)) [
  | inl e ↦ rw e (IsAbsent-remove_self file m)
  | inr e ↦ rw e (str_eq-false f file e, IsAbsent-remove_self file m)
]

IsAbsent-remove :
    (file g : String) (m : Breakpoints) → IsAbsent g m → IsAbsent g (remove_file file m)
unfolding remove_file
IsAbsent-remove file g [] h = tt
IsAbsent-remove file g ((f, lines) ∷ m) (n, h) = elim (Bool-cases (str_eq f file)) [
  | inl e ↦ rw e (IsAbsent-remove file g m h)
  | inr e ↦ rw e (n, IsAbsent-remove file g m h)
]

pub IsMap-remove : (file : String) (m : Breakpoints) → IsMap m → IsMap (remove_file file m)
unfolding remove_file
IsMap-remove file [] h = tt
IsMap-remove file ((f, lines) ∷ m) (n, h) = elim (Bool-cases (str_eq f file)) [
  | inl e ↦ rw e (IsMap-remove file m h)
  | inr e ↦ rw e (IsAbsent-remove file f m n, IsMap-remove file m h)
]

pub IsMap-put :
    (file : String) (lines : List ℤ) (m : Breakpoints) → IsMap m → IsMap (put_lines file lines m)
unfolding put_lines
IsMap-put file lines m h = (IsAbsent-remove_self file m, IsMap-remove file m h)
