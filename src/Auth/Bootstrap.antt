-- ===== src/Auth/Bootstrap.antt =====
-- The first admin of src/app/auth.py.
use yt_service.Prelude.{
  String, false, Bool-cases, none, some, Option-cases, List, ◌≡◌, refl, inl, inr, find, is_empty,
}
use yt_service.Auth.{Token, is_admin, bootstrap_row, bootstrap_admin_token}

-- What the bootstrap leaves has an admin.
has_admin :
    (id hash plain : String) (rows : List Token)
    → is_empty plain ≡ false
    → (admin : Token) × (find is_admin (bootstrap_admin_token id hash (some plain) rows).1
        ≡ some admin)
unfolding bootstrap_admin_token
has_admin id hash plain rows given = elim (Option-cases (find is_admin rows)) [
  | inl e ↦ rw (given, e, bootstrap_admin_token) (bootstrap_row id hash, refl)
  | inr (admin, e) ↦ rw (given, e, bootstrap_admin_token) (admin, e)
]

rerun :
    (id hash plain : String) (rows : List Token) (admin : Token)
    → find is_admin rows ≡ some admin
    → bootstrap_admin_token id hash (some plain) rows ≡ (none, rows)
unfolding bootstrap_admin_token
rerun id hash plain rows admin h = elim (Bool-cases (is_empty plain)) [
  | inl e ↦ rw e refl
  | inr e ↦ rw (e, h, bootstrap_admin_token) refl
]

-- Running the bootstrap again adds nothing: after a run with a token that is not empty, a second run,
-- with whatever id, hash and token, leaves the rows of the first and returns no token.
pub bootstrap_admin_token_twice :
    (id hash id' hash' plain plain' : String) (rows : List Token)
    → is_empty plain ≡ false
    → bootstrap_admin_token id' hash'
        (some plain')
        (bootstrap_admin_token id hash (some plain) rows).1
      ≡ (none, (bootstrap_admin_token id hash (some plain) rows).1)
bootstrap_admin_token_twice id hash id' hash' plain plain' rows given =
    let (admin, found) = has_admin id hash plain rows given in
    rerun id' hash' plain' (bootstrap_admin_token id hash (some plain) rows).1 admin found
