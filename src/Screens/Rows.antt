-- ===== src/Screens/Rows.antt =====
-- The rows of Controller/SearchVC.swift against the users that the search must find.
use on_my_way.Base.{
  ℕ, zero, suc, ◌<◌, String, ◌≡◌, ◌≢◌, refl, sym, ap, true, false, some, List, [], ◌∷◌, length,
  Member, inl, inr, arith, eq_iff, ◌==◌,
}
use on_my_way.Database.{Database}
use on_my_way.Model.{User}
use on_my_way.Social.Search.{Named, find_users_exact}
use on_my_way.Screens.{
  Search, text_did_change, on_found, reload_data, number_of_rows, user_in, user_for_row,
}

in_range :
    (us : List User) (row : ℕ)
    → row < length us
    → (u : User) × (user_in us row ≡ some u) × Member u us
in_range [] row h = absurd (omega arith)
in_range (u ∷ us) zero h = (u, refl, inl refl)
in_range (u ∷ us) (suc row) h = let (v, p, m) = in_range us row (omega arith) in (v, p, inr m)

-- Every user of a list stands at a row of it.
row_of :
    (us : List User) (u : User)
    → Member u us
    → (row : ℕ) × (row < length us) × (user_in us row ≡ some u)
row_of [] u m = elim m [ ]
row_of (v ∷ us) u (inl p) = (0, omega arith, ap some (sym p))
row_of (v ∷ us) u (inr m) = let (row, h, p) = row_of us u m in (suc row, omega arith, p)

module _ (f : Database) where
  open f use {Db}

  -- The table of SearchVC while a search is active: after the answer to the query that a new text
  -- sends, no row is out of range and each shows a user whom the search must find, and each user
  -- whom it must find is at some row, whatever was shown before and whoever is followed.
  pub on_found_exact :
      (db : Db) (current text : String) (follows : List User) (s : Search)
      → text ≢ ""
      → s.search_active ≡ true
      → let (typed, query) = text_did_change text s in
        let after = on_found f db current follows text typed in
        (query ≡ some text)
        × ((row : ℕ)
            → row < after.rows
            → (u : User) × (user_for_row follows after row ≡ some u) × Named f db current text u)
        × ((u : User)
            → Named f db current text u
            → (row : ℕ) × (row < after.rows) × (user_for_row follows after row ≡ some u))
  unfolding on_found text_did_change reload_data number_of_rows user_for_row
  on_found_exact db current text follows s n a =
      let (users, found, m) = find_users_exact f db current text n in
      let filled : (text == "") ≡ false = ground (arith, eq_iff text "", n) in
      rw (filled, found, on_found, a)
        (
          refl,
          λ row h. let (u, p, k) = in_range users row h in (u, p, (m u).0 k),
          λ u k. row_of users u ((m u).1 k),
        )
