-- ===== src/Config/Users.antt =====
-- gateway/config.py `iam_db_user_from_email`, and its counterpart in the pooler service,
-- services/change_metadata_pooler/app/permissions.py `pooler_sa_email`.
use mathlib.Core.List.{reverse-append}
use dbt_bigquery_ext.Prelude.{
  ap, sym, ◌∙◌, ℕ, ◌≢◌, arith, length-append, ends_with-append, NoSpace, strip-append, true,
  contains-append, false, some_inj, ◌-◌, ◌≡◌, refl, Option, none, some, [], ◌∷◌, ◌++◌, Text, codes,
  contains, ends_with, strip, take, length, if◌then◌else◌,
}

abbrev pub account_suffix : Text
account_suffix = codes ".gserviceaccount.com"

-- `none` is the `DbtRuntimeError` for an empty email.
unfoldable pub iam_db_user_from_email : Text → Option Text
iam_db_user_from_email [] = none
iam_db_user_from_email (c ∷ rest) =
    let email = c ∷ rest in
    if ends_with email account_suffix
    then some (take (length email - length account_suffix) email)
    else some email

-- `(iam_db_user or "")` is the empty text for `None`.
unfoldable pub pooler_sa_email : Text → Text → Text
pooler_sa_email iam_db_user fallback_project =
    let u = strip iam_db_user in
    if ends_with u account_suffix
    then u
    else if ends_with u (codes ".iam")
    then u ++ account_suffix
    else if contains u (codes "@")
    then u
    else u ++ (codes "@" ++ (fallback_project ++ codes ".iam.gserviceaccount.com"))

take-length : (s t : Text) → take (length (s ++ t) - length t) (s ++ t) ≡ s
take-length s t = rw (drop_tail s t) (take_front s t)
  where
    drop_tail : (s t : Text) → length (s ++ t) - length t ≡ length s
    drop_tail s t = omega (arith, length-append s t)

    take_front : (s t : Text) → take (length s) (s ++ t) ≡ s
    take_front [] t = refl
    take_front (c ∷ s) t = ap (λ r. c ∷ r) (take_front s t)

-- The database user of a service account's email is the email without the suffix.
user_of_account : (u : Text) → u ≢ [] → iam_db_user_from_email (u ++ account_suffix) ≡ some u
unfolding iam_db_user_from_email
user_of_account [] h = absurd (h refl)
user_of_account (c ∷ u) h =
    rw (ends_with-append (c ∷ u) account_suffix) (ap some (take-length (c ∷ u) account_suffix))

abbrev pub iam_tail : Text
iam_tail = codes ".iam"

abbrev pub developer_tail : Text
developer_tail = codes "@developer"

append_ne : (b t : Text) (c : ℕ) → (b ++ c ∷ t) ≢ []
append_ne [] t c e = cc
append_ne (d ∷ b) t c e = cc

module _ (b : Text) where
  iam_no_account : ends_with (b ++ iam_tail) account_suffix ≡ false
  unfolding ends_with
  iam_no_account = rw reverse-append

  developer_no_account : ends_with (b ++ developer_tail) account_suffix ≡ false
  unfolding ends_with
  developer_no_account = rw reverse-append

  developer_no_iam : ends_with (b ++ developer_tail) iam_tail ≡ false
  unfolding ends_with
  developer_no_iam = rw reverse-append

  developer_contains : contains (b ++ developer_tail) (codes "@") ≡ true
  developer_contains = contains-append b developer_tail _ (unfold contains in refl)

  of_iam_user :
      (fallback : Text)
      → NoSpace b
      → pooler_sa_email (b ++ iam_tail) fallback ≡ (b ++ iam_tail) ++ account_suffix
  unfolding pooler_sa_email
  of_iam_user fallback h =
      rw (strip-append b iam_tail h refl refl, iam_no_account, ends_with-append b iam_tail)

  of_developer :
      (fallback : Text)
      → NoSpace b
      → pooler_sa_email (b ++ developer_tail) fallback ≡ b ++ developer_tail
  unfolding pooler_sa_email
  of_developer fallback h = rw (
    strip-append b developer_tail h refl refl,
    developer_no_account,
    developer_no_iam,
    developer_contains,
  )

  -- For a name with no white space before its `.iam`, the service-account email comes back from
  -- the database user that was derived from it.
  pub sa_email-of_iam_user :
      (fallback u : Text)
      → NoSpace b
      → iam_db_user_from_email ((b ++ iam_tail) ++ account_suffix) ≡ some u
      → pooler_sa_email u fallback ≡ (b ++ iam_tail) ++ account_suffix
  sa_email-of_iam_user fallback u h e =
      rw (some_inj (sym e ∙ user_of_account _ (append_ne b _ _))) (of_iam_user fallback h)

  -- For an email that ends in `@developer.gserviceaccount.com`, the email that comes back has lost
  -- its domain, and differs from the one that was given.
  pub sa_email-of_developer :
      (fallback u : Text)
      → NoSpace b
      → iam_db_user_from_email ((b ++ developer_tail) ++ account_suffix) ≡ some u
      → (pooler_sa_email u fallback ≡ b ++ developer_tail)
        × (pooler_sa_email u fallback ≢ (b ++ developer_tail) ++ account_suffix)
  sa_email-of_developer fallback u h e =
      let back : pooler_sa_email u fallback ≡ b ++ developer_tail =
        rw (some_inj (sym e ∙ user_of_account _ (append_ne b _ _))) (of_developer fallback h) in
      (
        back,
        λ k. absurd (
            omega (
              arith,
              ap length (sym back ∙ k),
              length-append (b ++ developer_tail) account_suffix,
            )),
      )
