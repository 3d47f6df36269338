-- ===== src/Header/Reach.antt =====
-- The builders of src/header.rs that its operations make from `DKIMHeaderBuilder::new`.
use dkim.Prelude.{
  ◌≡◌, refl, sym, subst, ◌⊎◌, inl, inr, Bool-cases, List, none, some, Bytes, codes, beq,
  if◌then◌else◌,
}
use dkim.Error.Laws.{bind-eq-ok, ok-injective}
use dkim.Error.{ok, ◌>>=◌, ok_or, unwrap, builder_error}
use dkim.Externals.{Chrono}
use dkim.Header.ReadBack.{IsHeader, add_tag-IsHeader}
use dkim.Header.{DkimHeaderBuilder, new, add_tag, set_signed_headers, set_expiry, set_time}
use dkim.Map.{get, get-insert, beq_refl}
use dkim.Parser.{Tag}
use dkim.Str.Decimal.{int_to_string}
use dkim.Str.{Unicode}

module _ (chrono : Chrono) (unicode : Unicode) where
  -- A call of one operation that returns.
  pub data Step : DkimHeaderBuilder chrono → DkimHeaderBuilder chrono → Type 0 where
    tagged :
        (b : DkimHeaderBuilder chrono) (name value : Bytes) → Step b (add_tag chrono name value b)
    signing :
        (b : DkimHeaderBuilder chrono) (headers : List Bytes)
        → Step b (set_signed_headers chrono unicode headers b)
    timed : (b : DkimHeaderBuilder chrono) (time : chrono.Time) → Step b (set_time chrono time b)
    expiring :
        (b b' : DkimHeaderBuilder chrono) (duration : chrono.Duration)
        → set_expiry chrono duration b ≡ ok b'
        → Step b b'

  pub data Reachable : DkimHeaderBuilder chrono → Type 0 where
    start : Reachable (new chrono)
    next : {b b' : DkimHeaderBuilder chrono} → Reachable b → Step b b' → Reachable b'

  -- Each key is its tag's name, none stands twice, and a time that is set stands in `t=`.
  abbrev pub Kept : DkimHeaderBuilder chrono → Type 0
  Kept b =
      IsHeader b.header
      × ((b.time ≡ none) ⊎ ((tag : Tag) × (get b.header.tags (codes "t") ≡ some tag)))

  abbrev tag_of : Bytes → Bytes → Tag
  tag_of name value = record { name = name; value = value; raw_value = value }

  add_tag-get :
      (b : DkimHeaderBuilder chrono) (name value key : Bytes)
      → get ((add_tag chrono name value b).header).tags key
        ≡ (if beq name key then some (tag_of name value) else get b.header.tags key)
  unfolding add_tag
  add_tag-get b name value key = get-insert b.header.tags name (tag_of name value) key

  -- A tag that is there stays there.
  add_tag_keeps_tag :
      (b : DkimHeaderBuilder chrono) (name value key : Bytes) (tag : Tag)
      → get b.header.tags key ≡ some tag
      → (later : Tag) × (get ((add_tag chrono name value b).header).tags key ≡ some later)
  add_tag_keeps_tag b name value key tag there = elim (Bool-cases (beq name key)) [
    | inl same ↦ (tag_of name value, rw (add_tag-get b name value key, same))
    | inr other ↦ (tag, rw (add_tag-get b name value key, other) there)
  ]

  add_tag_keeps :
      (b : DkimHeaderBuilder chrono) (name value : Bytes)
      → Kept b
      → Kept (add_tag chrono name value b)
  unfolding add_tag
  add_tag_keeps b name value (is, inl unset) = (add_tag-IsHeader chrono name value b is, inl unset)
  add_tag_keeps b name value (is, inr (tag, there)) = (
    add_tag-IsHeader chrono name value b is,
    inr (add_tag_keeps_tag b name value (codes "t") tag there),
  )

  set_expiry_adds :
      (duration : chrono.Duration) (b b' : DkimHeaderBuilder chrono)
      → set_expiry chrono duration b ≡ ok b'
      → (text : Bytes) × (b' ≡ add_tag chrono (codes "x") text b)
  unfolding set_expiry
  set_expiry_adds duration b b' made =
      let added : chrono.Time → DkimHeaderBuilder chrono =
        λ expiry. add_tag chrono (codes "x") (int_to_string (chrono.timestamp expiry)) b in
      let (time, _, later) =
        bind-eq-ok (ok_or (builder_error (codes "missing require time")) b.time)
          (λ time. unwrap (chrono.plus time duration) >>= λ expiry. ok (added expiry)) made in
      let (expiry, _, is) =
        bind-eq-ok (unwrap (chrono.plus time duration)) (λ expiry. ok (added expiry)) later in
      (int_to_string (chrono.timestamp expiry), sym (ok-injective is))

  Step-Kept : {b b' : DkimHeaderBuilder chrono} → Step b b' → Kept b → Kept b'
  unfolding set_signed_headers set_time
  Step-Kept (tagged b name value) k = add_tag_keeps b name value k
  Step-Kept (signing b headers) k = add_tag_keeps b (codes "h") _ k
  Step-Kept (timed b time) k =
      let text = int_to_string (chrono.timestamp time) in
      let set : DkimHeaderBuilder chrono = record b { time = some time } in
      (
        add_tag-IsHeader chrono (codes "t") text set k.0,
        inr (
          tag_of (codes "t") text,
          rw (add_tag-get set (codes "t") text (codes "t"), beq_refl (codes "t")),
        ),
      )
  Step-Kept (expiring b b' duration made) k =
      let (text, is) = set_expiry_adds duration b b' made in
      subst Kept (sym is) (add_tag_keeps b (codes "x") text k)

  -- In every builder that add_tag, set_signed_headers, set_time and set_expiry make from new, each
  -- key is its tag's name, no key stands twice, and there is a t= if a time is set.
  pub Reachable-Kept : {b : DkimHeaderBuilder chrono} → Reachable b → Kept b
  unfolding get
  Reachable-Kept start = ((tt, tt), inl refl)
  Reachable-Kept (next r s) = Step-Kept s (Reachable-Kept r)
