-- ===== src/Base/Regex/Laws.antt =====
-- How a greedy repetition meets what follows it.
use ca.Base.{
  ℕ, ◌≡◌, refl, ap, ◌∙◌, arith, Bool, true, false, none, some, List, [], ◌∷◌, ◌++◌, length-append,
}
use ca.Base.Text.{Text}
use ca.Base.Regex.{one, many, sequence, group, consumed, Next, many_match, one_match, match_from}

abbrev pub AllIn : (ℕ → Bool) → Text → Type 0
AllIn c [] = Unit
AllIn c (x ∷ s) = (c x ≡ true) × AllIn c s

pub AllIn-append : (c : ℕ → Bool) (s t : Text) → AllIn c s → AllIn c t → AllIn c (s ++ t)
AllIn-append c [] t hs ht = ht
AllIn-append c (x ∷ s) t hs ht = (hs.0, AllIn-append c s t (hs.1) ht)

-- No match from any tail.
abbrev pub FailsOn : Next → Text → List Text → Type 0
FailsOn next [] groups = next [] groups ≡ none
FailsOn next (x ∷ s) groups = (next (x ∷ s) groups ≡ none) × FailsOn next s groups

pub consumed-append : (s rest : Text) → consumed (s ++ rest) rest ≡ s
consumed-append [] [] = refl
consumed-append [] (r ∷ rest) = ground arith
consumed-append (x ∷ s) rest = ground (arith, length-append s rest, consumed-append s rest)

pub consumed-end : (s : Text) → consumed s [] ≡ s
consumed-end [] = refl
consumed-end (x ∷ s) = ground (arith, consumed-end s)

pub many_match-none :
    (c : ℕ → Bool) (s : Text) (groups : List Text) (next : Next)
    → FailsOn next s groups
    → many_match c s groups next ≡ none
unfolding many_match
many_match-none c [] groups next h = h
many_match-none c (x ∷ s) groups next h = ground (arith, many_match-none c s groups next (h.1))

-- The repetition takes a part whose tail can be matched.
pub many_match-some :
    (c : ℕ → Bool) (s rest : Text) (groups r : List Text) (next : Next)
    → AllIn c s
    → many_match c rest groups next ≡ some r
    → many_match c (s ++ rest) groups next ≡ some r
unfolding many_match
many_match-some c [] rest groups r next h e = e
many_match-some c (x ∷ s) rest groups r next h e =
    ground (arith, many_match-some c s rest groups r next (h.1) e)

-- It stops where its set ends.
pub many_match-stop :
    (c : ℕ → Bool) (x : ℕ) (s : Text) (groups : List Text) (next : Next)
    → c x ≡ false
    → many_match c (x ∷ s) groups next ≡ next (x ∷ s) groups
unfolding many_match
many_match-stop c x s groups next h = rw (many_match, h) refl

-- It gives back all that it took after `x`.
pub many_match-give_back :
    (c : ℕ → Bool) (x : ℕ) (s : Text) (groups r : List Text) (next : Next)
    → FailsOn next s groups
    → next (x ∷ s) groups ≡ some r
    → many_match c (x ∷ s) groups next ≡ some r
unfolding many_match
many_match-give_back c x s groups r next h e = ground (arith, many_match-none c s groups next h)

pub many_match-all :
    (c : ℕ → Bool) (s : Text) (groups r : List Text) (next : Next)
    → AllIn c s
    → next [] groups ≡ some r
    → many_match c s groups next ≡ some r
unfolding many_match
many_match-all c [] groups r next h e = e
many_match-all c (x ∷ s) groups r next h e =
    ground (arith, many_match-all c s groups r next (h.1) e)

-- A group of one byte or more, up to a byte outside its set.
pub match_from-group :
    (c : ℕ → Bool) (x : ℕ) (name : Text) (y : ℕ) (s : Text) (groups r : List Text) (next : Next)
    → c x ≡ true
    → AllIn c name
    → c y ≡ false
    → next (y ∷ s) (groups ++ (x ∷ name) ∷ []) ≡ some r
    → match_from (group (sequence (one c) (many c))) (x ∷ name ++ y ∷ s) groups next ≡ some r
unfolding match_from one_match
match_from-group c x name y s groups r next hx h hy e = rw hx (
    let k : Next = λ rest groups'. next rest (groups' ++ consumed (x ∷ name ++ y ∷ s) rest ∷ []) in
    many_match-some c name (y ∷ s) groups r k h (
      many_match-stop c y s groups k hy
      ∙ (ap (λ t. next (y ∷ s) (groups ++ t ∷ [])) (consumed-append (x ∷ name) (y ∷ s)) ∙ e)))

-- A group of one byte or more, up to the end.
pub match_from-last_group :
    (c : ℕ → Bool) (x : ℕ) (name : Text) (groups r : List Text) (next : Next)
    → c x ≡ true
    → AllIn c name
    → next [] (groups ++ (x ∷ name) ∷ []) ≡ some r
    → match_from (group (sequence (one c) (many c))) (x ∷ name) groups next ≡ some r
unfolding match_from one_match
match_from-last_group c x name groups r next hx h e = rw hx (
    let k : Next = λ rest groups'. next rest (groups' ++ consumed (x ∷ name) rest ∷ []) in
    many_match-all c name groups r k h
      (ap (λ t. next [] (groups ++ t ∷ [])) (consumed-end (x ∷ name)) ∙ e))
