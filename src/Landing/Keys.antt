-- ===== src/Landing/Keys.antt =====
-- services/raw_landing.py: the names of stored objects tell their parts, since no safe component has a
-- slash in it.
use package.text.Mathlib.TextLemmas.{
  append_cancel_left, cons-append, head-eq_of_cons-eq, nil-append, tail-eq_of_cons-eq,
}
use Prim.Native.Char.{Char, code}
use Prim.Native.String.{String, [], ◌∷◌, ◌++◌}
use marketpilot.Base.{and_parts, ap, arith, refl, sym, true, ◌∙◌, ◌≡◌, ◌≢◌}
use marketpilot.Landing.Service.{all_safe, is_safe_char, object_key_of}

abbrev slash : Char
slash = "/"

slash_is_unsafe : (c : Char) → is_safe_char (code c) ≡ true → c ≢ slash
slash_is_unsafe c h e = ground (arith, ap code e)

-- A safe component ends at the first slash.
split_at_slash :
    (s t r u : String)
    → all_safe s ≡ true
    → all_safe t ≡ true
    → s ++ (slash ∷ r) ≡ t ++ (slash ∷ u)
    → (s ≡ t) × (r ≡ u)
unfolding all_safe
split_at_slash [] [] r u hs ht e =
    (refl, tail-eq_of_cons-eq (sym (nil-append (slash ∷ r)) ∙ e ∙ nil-append (slash ∷ u)))
split_at_slash [] (◌∷◌ d t) r u hs ht e =
    elim (slash_is_unsafe d (and_parts (is_safe_char (code d)) (all_safe t) ht).0 (
      sym
        (head-eq_of_cons-eq (sym (nil-append (slash ∷ r)) ∙ e ∙ cons-append d t (slash ∷ u))))) [ ]
split_at_slash (◌∷◌ c s) [] r u hs ht e =
    elim (slash_is_unsafe c (and_parts (is_safe_char (code c)) (all_safe s) hs).0
      (head-eq_of_cons-eq (sym (cons-append c s (slash ∷ r)) ∙ e ∙ nil-append (slash ∷ u)))) [ ]
split_at_slash (◌∷◌ c s) (◌∷◌ d t) r u hs ht e =
    let heads = sym (cons-append c s (slash ∷ r)) ∙ e ∙ cons-append d t (slash ∷ u) in
    let rest =
      split_at_slash s t r u (and_parts (is_safe_char (code c)) (all_safe s) hs).1
        (and_parts (is_safe_char (code d)) (all_safe t) ht).1 (tail-eq_of_cons-eq heads) in
    (cc (rest.0, head-eq_of_cons-eq heads), rest.1)

slash_first : (r : String) → "/" ++ r ≡ slash ∷ r
slash_first r = cons-append slash [] r ∙ ap (λ u. slash ∷ u) (nil-append r)

split_at_text :
    (s t r u : String)
    → all_safe s ≡ true
    → all_safe t ≡ true
    → s ++ ("/" ++ r) ≡ t ++ ("/" ++ u)
    → (s ≡ t) × (r ≡ u)
split_at_text s t r u hs ht e = split_at_slash s t r u hs ht (cc (slash_first r, slash_first u))

pub object_key_parts :
    (p d i p' d' i' : String)
    → all_safe p ≡ true
    → all_safe d ≡ true
    → all_safe p' ≡ true
    → all_safe d' ≡ true
    → object_key_of p d i ≡ object_key_of p' d' i'
    → (p ≡ p') × (d ≡ d') × (i ≡ i')
object_key_parts p d i p' d' i' hp hd hp' hd' e =
    let first = split_at_text p p' (d ++ "/" ++ i) (d' ++ "/" ++ i') hp hp' (
      append_cancel_left "licensed/" (p ++ "/" ++ d ++ "/" ++ i) (p' ++ "/" ++ d' ++ "/" ++ i')
        e) in
    let second = split_at_text d d' i i' hd hd' first.1 in (first.0, second.0, second.1)
