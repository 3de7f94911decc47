-- ===== src/Visibility/Marks.antt =====
-- What the operations on private marks (internal/domain/secretvis/store.go) do to each id.
use secret_share.Visibility.Store.{
  read_private, VisibilityStore, Marker, is_private, set_private, drop_mark,
}
use secret_share.Secrets.Burn.{committed}
use secret_share.Prelude.{
  ◌⊎◌, refl, inl, true, inr, Option-cases, Bool-cases, eq_iff, some, String, Option, arith, ◌==◌,
  none, ◌||◌, false, ◌≡◌, if◌then◌else◌,
}
use secret_share.Bolt.Laws.{delete_at, put_at}
use secret_share.Bolt.{Engine, Error, opened, closed}

module _ (E : Engine) where
  -- In an open store, a mark that answers no error, under an id that is not blank, makes that id private, and no
  -- other; with an error nothing changes.
  pub set_private_lem :
      (commit : Option Error) (id j : String) (b : Option (E.Bucket Marker))
      → let r = set_private E commit id (opened b) in
        is_private E j r.2 ≡ (
          if id == ""
          then is_private E j (opened b)
          else committed r.1 (id == j || is_private E j (opened b)) (is_private E j (opened b)))
  unfolding set_private is_private
  set_private_lem commit id j none = ground (
    arith,
    put_at E (E.empty Marker) id j tt,
    E.get-empty Marker j,
    eq_iff id j,
    eq_iff j "",
    eq_iff id "",
  )
  set_private_lem commit id j (some b) =
      ground (arith, put_at E b id j tt, eq_iff id j, eq_iff j "", eq_iff id "")

  -- Dropping the mark of an id makes it public, and leaves the others.
  pub drop_mark_lem :
      (commit : Option Error) (id j : String) (s : VisibilityStore E)
      → let r = drop_mark E commit id s in
        is_private E j r.2
        ≡ committed r.1 (if id == j then false else is_private E j s) (is_private E j s)
  unfolding drop_mark is_private
  drop_mark_lem commit id j closed = ground arith
  drop_mark_lem commit id j (opened none) = ground arith
  drop_mark_lem commit id j (opened (some b)) = ground (arith, delete_at E b id j, eq_iff id j)

  -- A look at a mark sees it, or its transaction has failed.
  pub read_private-cases :
      (view : Option Error) (id : String) (s : VisibilityStore E)
      → (read_private E view id s ≡ (is_private E id s, none))
        ⊎ ((e : Error) × (read_private E view id s ≡ (false, some e)))
  unfolding read_private is_private
  read_private-cases view id closed = inl refl
  read_private-cases view id (opened b) = elim (Bool-cases (id == "")) [
    | inl blank ↦ inl (blank_id b blank)
    | inr named ↦ elim (Option-cases view) [
      | inl runs ↦ inl (ground arith)
      | inr (e, broken) ↦ inr (e, ground arith)
    ]
  ]
    where
      blank_id :
          (b : Option (E.Bucket Marker))
          → (id == "") ≡ true
          → read_private E view id (opened b) ≡ (is_private E id (opened b), none)
      blank_id none blank = ground (arith, blank)
      blank_id (some b) blank = ground (arith, blank)
