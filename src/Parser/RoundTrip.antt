-- ===== src/Parser/RoundTrip.antt =====
-- Printed tag lists and the parser of src/parser.rs.
use dkim.Prelude.{
  ◌<◌, ◌≡◌, ◌≢◌, refl, sym, ◌∙◌, List, [], ◌∷◌, ◌++◌, append_assoc, append-nil, arith, Bytes, codes,
  length, length-append,
}
use dkim.Nom.Scan.{Stops, AllPass, is_alpha}
use dkim.Nom.{Nom, IResult, done, Fails}
use dkim.Parser.{
  Tag, is_valchar, is_fws, fws, tag_name, tag_value, raw_tag_value, tag_spec, tag_list,
}
use dkim.Parser.Pieces.{
  alpha1-append, delimited_bare, delimited_after, tag_value_lem, raw_tag_value_lem, alpha_not_fws,
  valchar_not_fws, opt_fws-none,
}
use dkim.Str.{All}

-- A tag that can be written: letters for its name, and a value of visible characters, which is also
-- its raw value.
pub record IsPlain (t : Tag) : Type 0 where
  pub name_ne_nil : t.name ≢ []
  pub name_alpha : AllPass is_alpha t.name
  pub value_visible : AllPass is_valchar t.value
  pub raw_is_value : t.raw_value ≡ t.value

abbrev pub printed_tag : Tag → Bytes → Bytes
printed_tag t rest = t.name ++ (b'=' ∷ (t.value ++ rest))

-- The tags behind the first, each behind a semicolon and a space; the last semicolon.
abbrev pub printed_rest : List Tag → Bytes
printed_rest [] = b';' ∷ []
printed_rest (t ∷ ts) = b';' ∷ b' ' ∷ printed_tag t (printed_rest ts)

abbrev pub printed : List Tag → Bytes
printed [] = []
printed (t ∷ ts) = printed_tag t (printed_rest ts)

Stops-rest : (ts : List Tag) → Stops is_valchar (printed_rest ts) × Stops is_fws (printed_rest ts)
Stops-rest [] = (refl, refl)
Stops-rest (t ∷ ts) = (refl, refl)

Stops-value : (v t : Bytes) → AllPass is_valchar v → Stops is_fws t → Stops is_fws (v ++ t)
Stops-value [] t hv ht = ht
Stops-value (c ∷ v) t (hc, hv) ht = valchar_not_fws c hc

Stops-name : (n t : Bytes) → n ≢ [] → AllPass is_alpha n → Stops is_fws (n ++ t)
Stops-name [] t ne hn = absurd (ne refl)
Stops-name (c ∷ n) t ne (hc, hn) = alpha_not_fws c hc

module _ (nom : Nom) where
  tag_name-append :
      (n t : Bytes)
      → n ≢ []
      → AllPass is_alpha n
      → Stops is_alpha t
      → tag_name nom (n ++ t) ≡ done (t, n)
  unfolding tag_name
  tag_name-append [] t ne hn ht = absurd (ne refl)
  tag_name-append (c ∷ n) t ne hn ht = alpha1-append nom c n t hn ht

  -- One tag, from where its name has been read.
  tag_spec_lem :
      (t : Tag) (s rest : Bytes)
      → IsPlain t
      → Stops is_valchar rest
      → Stops is_fws rest
      → nom.delimited (nom.opt (fws nom)) (tag_name nom) (nom.opt (fws nom)) s
        ≡ done (b'=' ∷ (t.value ++ rest), t.name)
      → tag_spec nom s ≡ done (rest, t)
  unfolding tag_spec
  tag_spec_lem t s rest p hv hf e =
      let here = t.value ++ rest in
      let start = Stops-value t.value rest p.value_visible hf in
      rw
        (
          e,
          tag_spec,
          nom.tag_match (codes "=") here,
          delimited_bare nom (raw_tag_value nom) here rest t.value start hf
              (raw_tag_value_lem nom t.value rest p.value_visible hv hf),
          delimited_bare nom (tag_value nom) here rest t.value start hf
              (tag_value_lem nom t.value rest p.value_visible hv hf),
        )
        (λ i.
          done (rest, record { name = t.name; value = t.value; raw_value = sym p.raw_is_value i }))

  -- The first tag.
  tag_spec_first :
      (t : Tag) (ts : List Tag)
      → IsPlain t
      → tag_spec nom (printed_tag t (printed_rest ts)) ≡ done (printed_rest ts, t)
  tag_spec_first t ts p =
      let (hv, hf) = Stops-rest ts in
      let after = b'=' ∷ (t.value ++ printed_rest ts) in
      tag_spec_lem t (t.name ++ after) (printed_rest ts) p hv hf (
        delimited_bare nom (tag_name nom) (t.name ++ after) after t.name
          (Stops-name t.name after p.name_ne_nil p.name_alpha) refl
          (tag_name-append t.name after p.name_ne_nil p.name_alpha refl))

  -- A later tag, behind a space.
  tag_spec_later :
      (t : Tag) (ts : List Tag)
      → IsPlain t
      → tag_spec nom (b' ' ∷ printed_tag t (printed_rest ts)) ≡ done (printed_rest ts, t)
  tag_spec_later t ts p =
      let (hv, hf) = Stops-rest ts in
      let after = b'=' ∷ (t.value ++ printed_rest ts) in
      tag_spec_lem t (b' ' ∷ (t.name ++ after)) (printed_rest ts) p hv hf (
        delimited_after nom (tag_name nom) b' ' [] (t.name ++ after) after t.name (refl, tt)
          (Stops-name t.name after p.name_ne_nil p.name_alpha) refl
          (tag_name-append t.name after p.name_ne_nil p.name_alpha refl))

  abbrev next_tag : Bytes → IResult nom.Error Tag
  next_tag = nom.preceded (nom.tag (codes ";")) (tag_spec nom)

  next_tag_lem :
      (t : Tag) (ts : List Tag)
      → IsPlain t
      → next_tag (printed_rest (t ∷ ts)) ≡ done (printed_rest ts, t)
  next_tag_lem t ts p = rw (
    nom.preceded_lem,
    nom.tag_match (codes ";") (b' ' ∷ printed_tag t (printed_rest ts)),
    tag_spec_later t ts p,
  )

  tag_spec_nil : Fails (tag_spec nom [])
  unfolding tag_spec tag_name
  tag_spec_nil =
      let (e, failed) = nom.alpha1_miss [] tt in
      (e, rw (tag_spec, nom.delimited_lem, opt_fws-none nom [] tt, failed))

  next_tag_end : Fails (next_tag (b';' ∷ []))
  next_tag_end =
      let (e, failed) = tag_spec_nil in
      (e, rw (nom.preceded_lem, nom.tag_match (codes ";") [], failed))

  shorter : (t : Tag) (ts : List Tag) → length (printed_rest ts) < length (printed_rest (t ∷ ts))
  shorter t ts = omega (
    arith,
    length-append {0} t.name (b'=' ∷ (t.value ++ printed_rest ts)),
    length-append {0} t.value (printed_rest ts),
  )

  fold_tags :
      (ts acc : List Tag)
      → All IsPlain ts
      → nom.fold_many0 next_tag acc (λ acc item. acc ++ item ∷ []) (printed_rest ts)
        ≡ done (b';' ∷ [], acc ++ ts)
  fold_tags [] acc h = nom.fold_many0_stop next_tag acc _ (b';' ∷ []) next_tag_end ∙ rw append-nil
  fold_tags (t ∷ ts) acc (p, h) =
      nom.fold_many0_step next_tag acc (λ acc item. acc ++ item ∷ []) (printed_rest (t ∷ ts))
        (next_tag_lem t ts p) (shorter t ts)
      ∙ fold_tags ts (acc ++ t ∷ []) h
      ∙ rw append_assoc

  -- The printed form of a non-empty list of plain tags is parsed to that list with nothing left
  -- over, for every nom that keeps its documented laws.
  pub tag_list-printed :
      (t : Tag) (ts : List Tag)
      → All IsPlain (t ∷ ts)
      → tag_list nom (printed (t ∷ ts)) ≡ done ([], t ∷ ts)
  unfolding tag_list
  tag_list-printed t ts (p, h) =
      let last = nom.opt_done (nom.tag (codes ";")) (b';' ∷ []) (nom.tag_match (codes ";") []) in
      rw (tag_spec_first t ts p, tag_list, nom.terminated_lem, fold_tags ts (t ∷ []) h, last)
