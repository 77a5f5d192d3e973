-- ===== src/Net/Tcp/Header.antt =====
-- The bytes that a connection hands to the request parser end with its headers.
use cllm.Common.{
  ℕ, zero, suc, ◌≤◌, ◌≡◌, refl, sym, ap, ◌∙◌, inl, inr, List, [], ◌∷◌, ◌++◌, arith, Bool, true,
  false, ◌⊎◌, none, some, Bool-cases, Option-cases, length, take, drop, ◌==◌, ◌&&◌,
  take-append-drop, length-take,
}
use cllm.Common.Maybe.{some_inj, some_none}
use cllm.Net.Tcp.{headers_end}

-- If there is an empty line, the text ends with it.
abbrev pub EndsOnce : List ℕ → Type 0
EndsOnce s = (n : ℕ) → headers_end s ≡ some n → n ≡ length s

abbrev pub at_end : ℕ → ℕ → ℕ → ℕ → Bool
at_end a b c d = a == 13 && b == 10 && c == 13 && d == 10

-- One character further on, unless the empty line stands in front.
headers_end_later :
    (a b c d : ℕ) (l : List ℕ)
    → at_end a b c d ≡ false
    → (m : ℕ) → headers_end (b ∷ c ∷ d ∷ l) ≡ some m
    → headers_end (a ∷ b ∷ c ∷ d ∷ l) ≡ some (suc m)
unfolding headers_end
headers_end_later a b c d l t m e = rw (t, e) refl

pub headers_end_front :
    (a b c d : ℕ) (l : List ℕ) → at_end a b c d ≡ true → headers_end (a ∷ b ∷ c ∷ d ∷ l) ≡ some 4
unfolding headers_end
headers_end_front a b c d l t = rw t refl

headers_end-none :
    (a b c d : ℕ) (l : List ℕ)
    → at_end a b c d ≡ false
    → headers_end (b ∷ c ∷ d ∷ l) ≡ none
    → headers_end (a ∷ b ∷ c ∷ d ∷ l) ≡ none
unfolding headers_end
headers_end-none a b c d l t e = rw (t, e) refl

headers_end-cases :
    (a b c d : ℕ) (l : List ℕ) (n : ℕ)
    → headers_end (a ∷ b ∷ c ∷ d ∷ l) ≡ some n
    → ((at_end a b c d ≡ true) × (n ≡ 4))
      ⊎ ((at_end a b c d ≡ false)
          × ((m : ℕ) × (headers_end (b ∷ c ∷ d ∷ l) ≡ some m) × (n ≡ suc m)))
headers_end-cases a b c d l n h = elim (Bool-cases (at_end a b c d)) [
  | inl t ↦ inl (t, some_inj (sym h ∙ headers_end_front a b c d l t))
  | inr t ↦ elim (Option-cases (headers_end (b ∷ c ∷ d ∷ l))) [
    | inl e ↦ some_none (sym (headers_end-none a b c d l t e) ∙ h)
    | inr (m, e) ↦ inr (t, (m, e, some_inj (sym h ∙ headers_end_later a b c d l t m e)))
  ]
]

pub EndsOnce-tail : (a : ℕ) (s : List ℕ) → EndsOnce (a ∷ s) → EndsOnce s
unfolding headers_end
EndsOnce-tail a [] h n e = some_none e
EndsOnce-tail a (b ∷ []) h n e = some_none e
EndsOnce-tail a (b ∷ c ∷ []) h n e = some_none e
EndsOnce-tail a (b ∷ c ∷ d ∷ []) h n e = some_none e
EndsOnce-tail a (b ∷ c ∷ d ∷ x ∷ l) h n e = elim (Bool-cases (at_end a b c d)) [
  | inl t ↦ absurd (omega (arith, h 4 (headers_end_front a b c d (x ∷ l) t)))
  | inr t ↦ omega (arith, h (suc n) (headers_end_later a b c d (x ∷ l) t n e))
]

pub EndsOnce-drop : (n : ℕ) (s : List ℕ) → EndsOnce s → EndsOnce (drop n s)
EndsOnce-drop zero s h = h
EndsOnce-drop (suc n) [] h = h
EndsOnce-drop (suc n) (a ∷ s) h = EndsOnce-drop n s (EndsOnce-tail a s h)

headers_end-append : (p q : List ℕ) (n : ℕ) → headers_end p ≡ some n → headers_end (p ++ q) ≡ some n
unfolding headers_end
headers_end-append [] q n h = some_none h
headers_end-append (a ∷ []) q n h = some_none h
headers_end-append (a ∷ b ∷ []) q n h = some_none h
headers_end-append (a ∷ b ∷ c ∷ []) q n h = some_none h
headers_end-append (a ∷ b ∷ c ∷ d ∷ l) q n h = elim (headers_end-cases a b c d l n h) [
  | inl (t, e) ↦ headers_end_front a b c d (l ++ q) t ∙ ap some (sym e)
  | inr (t, (m, k, e)) ↦
      headers_end_later a b c d (l ++ q) t m (headers_end-append (b ∷ c ∷ d ∷ l) q m k)
      ∙ ap some (sym e)
]

pub headers_end-le : (s : List ℕ) (n : ℕ) → headers_end s ≡ some n → n ≤ length s
unfolding headers_end
headers_end-le [] n h = some_none h
headers_end-le (a ∷ []) n h = some_none h
headers_end-le (a ∷ b ∷ []) n h = some_none h
headers_end-le (a ∷ b ∷ c ∷ []) n h = some_none h
headers_end-le (a ∷ b ∷ c ∷ d ∷ l) n h = elim (headers_end-cases a b c d l n h) [
  | inl (t, e) ↦ omega (arith, e)
  | inr (t, (m, k, e)) ↦ omega (arith, e, headers_end-le (b ∷ c ∷ d ∷ l) m k)
]

pub length-front : (s : List ℕ) (n : ℕ) → headers_end s ≡ some n → length (take n s) ≡ n
length-front s n h = omega (arith, length-take n s, headers_end-le s n h)

-- What is cut off behind the first empty line ends with it.
pub EndsOnce-take : (s : List ℕ) (n : ℕ) → headers_end s ≡ some n → EndsOnce (take n s)
EndsOnce-take s n h m e =
    some_inj (
      sym (headers_end-append (take n s) (drop n s) m e)
      ∙ ap headers_end (take-append-drop n s)
      ∙ h)
    ∙ sym (length-front s n h)
