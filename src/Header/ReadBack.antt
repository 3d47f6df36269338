-- ===== src/Header/ReadBack.antt =====
-- A header that `DkimHeaderBuilder` of src/header.rs built, parsed again by the parser of
-- src/parser.rs into the map of src/lib.rs.
use dkim.Prelude.{
  ◌≡◌, ◌≢◌, refl, sym, ap, subst, ◌∙◌, false, Bool-cases, [], ◌∷◌, ◌++◌, append_assoc, append-nil,
  inl, inr, Bytes, beq, none, some, arith,
}
use dkim.Error.{ok}
use dkim.Error.Laws.{ok-injective}
use dkim.Externals.{Chrono}
use dkim.Header.Print.{
  Named, Distinct, tags_of, serialize-printed, insert-Named, insert-Distinct, beq_sym,
}
use dkim.Header.{TagMap, DkimHeader, DkimHeaderBuilder, add_tag, build}
use dkim.Map.{get, insert, insert_new}
use dkim.Nom.{Nom, done}
use dkim.Parser.RoundTrip.{IsPlain, printed, tag_list-printed}
use dkim.Parser.{Tag, tag_list}
use dkim.Str.{All}
use dkim.Validate.{tags_map}

get-append_one :
    (acc : TagMap) (k j : Bytes) (t : Tag)
    → get acc j ≡ none
    → beq k j ≡ false
    → get (acc ++ ((k, t) ∷ [])) j ≡ none
unfolding get
get-append_one [] k j t h e = rw e
get-append_one ((i, w) ∷ acc) k j t h e = ground (arith, get-append_one acc k j t)

abbrev Fresh : TagMap → TagMap → Type 0
Fresh acc = All (λ entry. get acc entry.0 ≡ none)

some-ne-none : {t : Tag} → some t ≢ none
some-ne-none h = cc

Fresh-later :
    (acc : TagMap) (k : Bytes) (t : Tag) (m : TagMap)
    → Fresh acc m
    → get m k ≡ none
    → Fresh (acc ++ ((k, t) ∷ [])) m
unfolding get
Fresh-later acc k t [] f n = tt
Fresh-later acc k t ((j, w) ∷ m) (h, f) n = elim (Bool-cases (beq j k)) [
  | inl e ↦ absurd (some-ne-none (rw e at n))
  | inr e ↦ (get-append_one acc k j t h (beq_sym k j ∙ e), Fresh-later acc k t m f (rw e at n))
]

tags_map_append :
    (acc m : TagMap) → Named m → Distinct m → Fresh acc m → tags_map acc (tags_of m) ≡ acc ++ m
unfolding tags_map
tags_map_append acc [] n d f = rw append-nil
tags_map_append acc ((k, t) ∷ m) (e, n) (new, d) (h, f) =
    ap (λ name. tags_map (insert acc name t) (tags_of m)) (sym e)
    ∙ ap (λ next. tags_map next (tags_of m)) (insert_new acc k t h)
    ∙ tags_map_append (acc ++ ((k, t) ∷ [])) m n d (Fresh-later acc k t m f new)
    ∙ rw append_assoc

Fresh-nil : (m : TagMap) → Fresh [] m
unfolding get
Fresh-nil [] = tt
Fresh-nil (entry ∷ m) = (refl, Fresh-nil m)

-- The map of a header's tags, in order, is the header's map.
pub tags_map-tags_of : (m : TagMap) → Named m → Distinct m → tags_map [] (tags_of m) ≡ m
tags_map-tags_of m n d = tags_map_append [] m n d (Fresh-nil m)

-- What a builder's header keeps: each key is its tag's name, and none stands twice.
abbrev pub IsHeader : DkimHeader → Type 0
IsHeader header = Named header.tags × Distinct header.tags

module _ (chrono : Chrono) where
  -- add_tag keeps a header one in which each key is its tag's name and no key stands twice.
  pub add_tag-IsHeader :
      (name value : Bytes) (builder : DkimHeaderBuilder chrono)
      → IsHeader builder.header
      → IsHeader ((add_tag chrono name value builder).header)
  unfolding add_tag
  add_tag-IsHeader name value builder (n, d) =
      (insert-Named builder.header.tags _ n, insert-Distinct builder.header.tags name _ d)

  -- A header built from at least one tag, all plain, with each key its tag's name and no key
  -- twice, is written so that the parser reads all of its text back to the tags, whose map is the
  -- header's.
  pub build_read_back :
      (nom : Nom) (builder : DkimHeaderBuilder chrono) (header : DkimHeader)
      → IsHeader builder.header
      → builder.header.tags ≢ []
      → All IsPlain (tags_of builder.header.tags)
      → build chrono builder ≡ ok header
      → (tag_list nom header.raw_bytes ≡ done ([], tags_of header.tags))
        × (tags_map [] (tags_of header.tags) ≡ header.tags)
  unfolding build
  build_read_back nom builder header (n, d) ne plain e =
      let same = ok-injective e in
      let tags = builder.header.tags in
      subst
        (λ h.
          (tag_list nom h.raw_bytes ≡ done ([], tags_of h.tags))
          × (tags_map [] (tags_of h.tags) ≡ h.tags))
        same
        (
          ap (tag_list nom) (serialize-printed tags n) ∙ read_all tags ne plain,
          tags_map-tags_of tags n d,
        )
    where
      read_all :
          (m : TagMap)
          → m ≢ []
          → All IsPlain (tags_of m)
          → tag_list nom (printed (tags_of m)) ≡ done ([], tags_of m)
      read_all [] ne plain = absurd (ne refl)
      read_all ((k, t) ∷ m) ne plain = tag_list-printed nom t (tags_of m) plain
