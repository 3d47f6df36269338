-- ===== src/Hash/Numbered.antt =====
-- The numbered headers of an email from the bottom, which `select_headers` of src/hash.rs goes
-- through.
use dkim.Prelude.{
  ℕ, zero, suc, ◌+◌, ◌-◌, ◌≡◌, refl, sym, ap, subst, ◌∙◌, Bool-cases, List, [], ◌∷◌, ◌++◌,
  append_assoc, map, reverse, ◌⊎◌, inl, inr, none, some, Bytes, length, length-append, take,
  take-append-drop, drop, arith, if◌then◌else◌,
}
use mathlib.Core.List.{reverse-cons, map-append}
use dkim.Externals.{MailHeader}
use dkim.Hash.{enumerate, find_header}
use dkim.Str.{eq_ignore_ascii_case}

abbrev pub Numbered : Type 0
Numbered = List (ℕ × MailHeader)

-- The headers of a name, in order.
abbrev pub of_name : Bytes → List MailHeader → List MailHeader
of_name name [] = []
of_name name (h ∷ hs) =
    if eq_ignore_ascii_case h.key name then h ∷ of_name name hs else of_name name hs

-- The numbers run down to 0.
abbrev pub RunsDown : ℕ → Numbered → Type 0
RunsDown k [] = Unit
RunsDown k ((i, h) ∷ r) = (i ≡ k + length r) × RunsDown k r

RunsDown-snoc :
    (k : ℕ) (r : Numbered) (h : MailHeader) → RunsDown (suc k) r → RunsDown k (r ++ ((k, h) ∷ []))
RunsDown-snoc k [] h d = (omega arith, tt)
RunsDown-snoc k ((i, x) ∷ r) h (e, d) =
    (omega (arith, e, length-append r ((k, h) ∷ [])), RunsDown-snoc k r h d)

pub RunsDown-reverse : (k : ℕ) (hs : List MailHeader) → RunsDown k (reverse (enumerate k hs))
RunsDown-reverse k [] = tt
RunsDown-reverse k (h ∷ hs) =
    subst (RunsDown k) (sym (reverse-cons (k, h) (enumerate (suc k) hs)))
      (RunsDown-snoc k (reverse (enumerate (suc k) hs)) h (RunsDown-reverse (suc k) hs))

RunsDown-after :
    (pre : Numbered) (i : ℕ) (h : MailHeader) (post : Numbered)
    → RunsDown 0 (pre ++ ((i, h) ∷ post))
    → i ≡ length post
RunsDown-after [] i h post (e, d) = omega (arith, e)
RunsDown-after (x ∷ pre) i h post (e, d) = RunsDown-after pre i h post d

pub unnumbered :
    (k : ℕ) (hs : List MailHeader) → map (λ x. x.1) (reverse (enumerate k hs)) ≡ reverse hs
unnumbered k [] = refl
unnumbered k (h ∷ hs) = rw (
  reverse-cons (k, h) (enumerate (suc k) hs),
  reverse-cons h hs,
  map-append,
  unnumbered (suc k) hs,
)

pub length-reverse : (k : ℕ) (hs : List MailHeader) → length (reverse (enumerate k hs)) ≡ length hs
length-reverse k [] = refl
length-reverse k (h ∷ hs) =
    rw (reverse-cons (k, h) (enumerate (suc k) hs), length-append, length-reverse (suc k) hs)
      (omega arith)

abbrev pub headers : Numbered → List MailHeader
headers = map (λ x. x.1)

-- What `find_header` finds.
abbrev pub Found : Bytes → Numbered → Type 0
Found name l =
    ((find_header name l ≡ none) × (of_name name (headers l) ≡ []))
    ⊎ ((pre : Numbered) × (i : ℕ) × (h : MailHeader) × (post : Numbered) × (l
          ≡ pre ++ ((i, h) ∷ post))
        × (find_header name l ≡ some (i, h))
        × (of_name name (headers l) ≡ h ∷ of_name name (headers post)))

pub find_header_lem : (name : Bytes) (l : Numbered) → Found name l
unfolding find_header
find_header_lem name [] = inl (refl, refl)
find_header_lem name ((j, x) ∷ l) = elim (Bool-cases (eq_ignore_ascii_case x.key name)) [
  | inl e ↦ inr ([], j, x, l, refl, rw e, rw e)
  | inr e ↦ elim (find_header_lem name l) [
    | inl (n, o) ↦ inl (rw (e, n), rw (e, o))
    | inr (pre, i, h, post, at, f, o) ↦
        inr ((j, x) ∷ pre, i, h, post, ap (λ r. (j, x) ∷ r) at, rw (e, f), rw (e, o))
  ]
]

pub drop-suc :
    (c : ℕ) (xs : List MailHeader) {h : MailHeader} {ys : List MailHeader}
    → drop c xs ≡ h ∷ ys
    → drop (suc c) xs ≡ ys
drop-suc zero [] e = cc
drop-suc zero (x ∷ xs) e = cc
drop-suc (suc c) [] e = cc
drop-suc (suc c) (x ∷ xs) e = drop-suc c xs e

pub drop-suc_nil : (c : ℕ) (xs : List MailHeader) → drop c xs ≡ [] → drop (suc c) xs ≡ []
drop-suc_nil zero [] e = refl
drop-suc_nil zero (x ∷ xs) e = cc
drop-suc_nil (suc c) [] e = refl
drop-suc_nil (suc c) (x ∷ xs) e = drop-suc_nil c xs e

drop_past :
    (front : Numbered) (x : ℕ × MailHeader) (post : Numbered)
    → drop (suc (length front)) (front ++ (x ∷ post)) ≡ post
drop_past [] x post = refl
drop_past (y ∷ front) x post = drop_past front x post

-- Below the index of the element that was found stands what is behind it.
drop_below :
    (front : Numbered) (i : ℕ) (h : MailHeader) (post : Numbered)
    → RunsDown 0 (front ++ ((i, h) ∷ post))
    → drop (length (front ++ ((i, h) ∷ post)) - i) (front ++ ((i, h) ∷ post)) ≡ post
drop_below front i h post down =
    let at : length (front ++ ((i, h) ∷ post)) - i ≡ suc (length front) =
      omega (arith, length-append front ((i, h) ∷ post), RunsDown-after front i h post down) in
    ap (λ d. drop d (front ++ ((i, h) ∷ post))) at ∙ drop_past front (i, h) post

pub drop_after :
    (d : ℕ) (r pre : Numbered) (i : ℕ) (h : MailHeader) (post : Numbered)
    → RunsDown 0 r
    → drop d r ≡ pre ++ ((i, h) ∷ post)
    → drop (length r - i) r ≡ post
drop_after d r pre i h post down at =
    let front = take d r ++ pre in
    let whole : front ++ ((i, h) ∷ post) ≡ r =
      append_assoc (take d r) pre ((i, h) ∷ post)
      ∙ ap (λ l. take d r ++ l) (sym at)
      ∙ take-append-drop d r in
    subst (λ l. drop (length l - i) l ≡ post) whole
      (drop_below front i h post (subst (RunsDown 0) (sym whole) down))
