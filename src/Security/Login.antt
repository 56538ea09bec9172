-- ===== src/Security/Login.antt =====
-- Who can log in with a credential file of src/python/gizmo_security.py.
use gizmo.Prelude.{
  ℕ, ◌≡◌, refl, true, Option, none, some, List, [], ◌∷◌, sym, subst, ap, arith, if_cases,
  Bool-cases, Option-cases, inl, inr,
}
use gizmo.Text.{Text, text_eq}
use gizmo.Security.{
  Bytes, Credential, CredentialFile, Loaded, validate_identity, is_valid_role, lookup, load,
  bytes_eq, verifies, authenticate,
}
use gizmo.Security.Load.{IsValid, IsStore, IsLoaded, load-IsLoaded}

eq_of_bytes_eq : (s t : Bytes) → bytes_eq s t ≡ true → s ≡ t
unfolding bytes_eq
eq_of_bytes_eq [] [] h = refl
eq_of_bytes_eq [] (b ∷ t) h = ground (arith, h)
eq_of_bytes_eq (a ∷ s) [] h = ground (arith, h)
eq_of_bytes_eq (a ∷ s) (b ∷ t) h =
    let p : a ≡ b = ground (arith, h) in
    let q : s ≡ t = eq_of_bytes_eq s t (ground (arith, h)) in rw p (ap (λ r. b ∷ r) q)

module _ (pbkdf2_hmac : Text → Bytes → ℕ → Bytes) where
  -- The credential that a login is by.
  pub record IsLogin (store : List Credential) (username password role : Text) (c : Credential)
      : Type 0 where
    pub valid : IsValid c
    pub username_matches : text_eq username c.username ≡ true
    pub password_matches : pbkdf2_hmac password c.salt c.iterations ≡ c.digest
    pub has_role : c.role ≡ role

  IsFound : Text → Option Credential → Type 0
  IsFound u none = Unit
  IsFound u (some c) = IsValid c × (text_eq u c.username ≡ true)

  lookup-IsFound : (store : List Credential) (u : Text) → IsStore store → IsFound u (lookup u store)
  unfolding lookup IsFound
  lookup-IsFound [] u h = tt
  lookup-IsFound (d ∷ store) u (valid, fresh, rest) =
      if_cases (IsFound u) (text_eq u d.username) (some d) (lookup u store) (λ e. (valid, e))
        (λ e. lookup-IsFound store u rest)

  found :
      (store : List Credential) (u : Text) (c : Credential)
      → IsStore store
      → lookup u store ≡ some c
      → IsFound u (some c)
  found store u c h e = rw (sym e) (lookup-IsFound store u h)

  IsStore-of_load :
      (file : CredentialFile) (store : List Credential)
      → load file ≡ Loaded.loaded store
      → IsStore store
  IsStore-of_load file store e = loaded_is e (load-IsLoaded file)
    where
      loaded_is :
          load file ≡ Loaded.loaded store → IsLoaded (load file) → IsLoaded (Loaded.loaded store)
      loaded_is e h = subst IsLoaded e h

  login :
      (store : List Credential) (u password role : Text)
      → IsStore store
      → authenticate pbkdf2_hmac store u password ≡ some role
      → (c : Credential) × IsLogin store u password role c
  unfolding authenticate verifies IsFound
  login store u password role h k = elim (Option-cases (lookup u store)) [
    | inl n ↦ ground (arith, n, k)
    | inr (c, e) ↦
        elim (Bool-cases (bytes_eq (pbkdf2_hmac password c.salt c.iterations) c.digest)) [
          | inl f ↦ (
            c,
            record {
              valid = (found store u c h e).0;
              username_matches = (found store u c h e).1;
              password_matches = eq_of_bytes_eq _ _ f;
              has_role = ground (arith, e, f, k);
            },
          )
          | inr f ↦ ground (arith, e, f, k)
        ]
  ]

  role_of_identity :
      (username role : Text) → validate_identity username role ≡ true → is_valid_role role ≡ true
  unfolding validate_identity
  role_of_identity username role h = ground (arith, h)

  -- A login with the credentials of a file that loads is by a valid credential of that username,
  -- with a password that derives its digest, and has that credential's role, operator or
  -- maintenance.
  pub authenticated_by_record :
      (file : CredentialFile) (store : List Credential) (username password role : Text)
      → load file ≡ Loaded.loaded store
      → authenticate pbkdf2_hmac store username password ≡ some role
      → (is_valid_role role ≡ true) × ((c : Credential) × IsLogin store username password role c)
  authenticated_by_record file store username password role h k =
      let (c, by_record) = login store username password role (IsStore-of_load file store h) k in
      (
        rw (sym by_record.has_role) (role_of_identity c.username c.role by_record.valid.identity),
        (c, by_record),
      )
